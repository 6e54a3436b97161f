-- ===== src/Ir/RoundTrip/Jumps.antt =====
-- `makeJmp` of src/ir/unmarshal.cpp on what the encoder makes of `Jmp`.
use prevail.Prelude.{
  ℕ, ◌^◌, ◌<◌, Bool, true, false, ◌==◌, ◌≡◌, refl, ap, ◌∙◌, Option, none, some, List, [], ◌∷◌, inl,
  inr, if◌then◌else◌, arith,
}
use prevail.Prelude.Int.{ℤ, pos, mod_ℕ, ◌+ℤ◌, ◌-ℤ◌, int_laws}
use prevail.Prelude.Lists.{get_elem?}
use prevail.Prelude.Result.{ok, ◌>>=◌, IfOk, yields, IfOk-bind, IfOk-value}
use prevail.Arith.Number.{narrow, fits, sint}
use prevail.Cfg.Label.{Label, label_to_offset16, label_to_offset32, jump_offset, is16}
use prevail.Ir.Syntax.{Condition, Instruction}
use prevail.Ir.Isa.{EbpfInst, ebpf_inst, cls_jmp, cls_jmp32}
use prevail.Ir.Platform.{Platform, Group, SupportsAll}
use prevail.Ir.Marshal.{of_jump, of_jump_always, of_ja16}
use prevail.Ir.Marshal.Jumps.{narrow-value, label_to_offset16-value, far}
use prevail.Ir.Unmarshal.{throw_if}
use prevail.Ir.Unmarshal.Jumps.{
  make_jmp, make_jump, check_ja, get_jmp_op, jump_cond, get_jump_target, label_of_slot, index_label,
  new_pc,
}
use prevail.Ir.RoundTrip.Reads.{Reads, one, decode-jmp}
use native.Mathlib.Nat.{mod-eq_of_lt}

-- A slot of the program that a jump may lead to: one that is not the second half of an lddw.
pub record Target (insts : List EbpfInst) (t : ℕ) : Type 0 where
  pub at_target : EbpfInst
  pub get_elem?-target : get_elem? insts t ≡ some at_target
  pub target-nonzero : (at_target.opcode == 0) ≡ false
  pub target-lt : t < 2 ^ 31

abbrev pub to : ℕ → Label
to t = index_label (pos t)

back : (pc t : ℕ) → pos pc +ℤ pos 1 +ℤ (pos t -ℤ pos pc -ℤ pos 1) ≡ pos t
back pc t = omega int_laws

pub fits-target : (t : ℕ) → t < 2 ^ 31 → fits (sint 32) (pos t) ≡ true
unfolding fits
fits-target t h = ground arith

-- The displacement to a slot leads to it.
pub get_jump_target-jump_offset :
    (insts : List EbpfInst) (pc t : ℕ)
    → Target insts t
    → get_jump_target (jump_offset pc (to t)) insts pc ≡ ok (to t)
unfolding get_jump_target label_of_slot throw_if narrow mod_ℕ
get_jump_target-jump_offset insts pc t h =
    let same : new_pc (jump_offset pc (to t)) pc ≡ t =
      ap (λ n. mod_ℕ n (2 ^ 32)) (back pc t) ∙ mod-eq_of_lt (omega (arith, h.target-lt)) in
    rw (same, h.get_elem?-target, h.target-nonzero, fits-target t h.target-lt) refl

abbrev pub to_jump : Option Condition → ℕ → Instruction
to_jump c t = Instruction.jmp (record { cond = c; target = to t })

module _ (p : Platform) (all : SupportsAll p) (insts : List EbpfInst) (pc : ℕ) where
  ja16-Reads :
      (off : ℤ) (t : ℕ)
      → get_jump_target off insts pc ≡ ok (to t)
      → Reads p insts pc (to_jump none t) (ebpf_inst cls_jmp 0 0 off (pos 0) ∷ [])
  unfolding make_jmp check_ja make_jump get_jmp_op jump_cond throw_if
  ja16-Reads off t h =
      one _
        (λ next.
          decode-jmp p insts pc _ _ next (inl refl)
            (rw (all Group.base32, all Group.base64, h) refl))
        refl

  ja32-Reads :
      (i : ℤ) (t : ℕ)
      → get_jump_target i insts pc ≡ ok (to t)
      → Reads p insts pc (to_jump none t) (ebpf_inst cls_jmp32 0 0 (pos 0) i ∷ [])
  unfolding make_jmp check_ja make_jump get_jmp_op jump_cond throw_if
  ja32-Reads i t h =
      one _ (λ next. decode-jmp p insts pc _ _ next (inr refl) (rw (all Group.base32, h) refl)) refl

  always :
      (t : ℕ) (near : Bool)
      → Target insts t
      → is16 (jump_offset pc (to t)) ≡ near
      → IfOk (Reads p insts pc (to_jump none t)) (
          (if near then ok (pos 0) else narrow (sint 32) (jump_offset pc (to t)))
          >>= of_jump_always pc (to t))
  unfolding of_jump_always of_ja16
  always t true h e = IfOk-bind (label_to_offset16 pc (to t)) λ off e_off. yields (
      ja16-Reads off t (
        ap (λ d. get_jump_target d insts pc)
          (IfOk-value e_off (label_to_offset16-value pc (to t))
            ∙ ap (λ b. if b then jump_offset pc (to t) else pos 0) e)
        ∙ get_jump_target-jump_offset insts pc t h))
  always t false h e = IfOk-bind (narrow (sint 32) (jump_offset pc (to t))) λ i e_i.
      let same = IfOk-value e_i (narrow-value 32 (jump_offset pc (to t))) in
      rw (far i (ap is16 same ∙ e)) (
        yields (
          ja32-Reads i t
            (ap (λ d. get_jump_target d insts pc) same ∙ get_jump_target-jump_offset insts pc t h)))

  pub of_jump_always-Reads :
      (t : ℕ) → Target insts t → IfOk (Reads p insts pc (to_jump none t)) (of_jump pc (to t) none)
  unfolding of_jump label_to_offset32
  of_jump_always-Reads t h = always t _ h refl
