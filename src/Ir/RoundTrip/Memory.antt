-- ===== src/Ir/RoundTrip/Memory.antt =====
-- `makeMemOp` of src/ir/unmarshal.cpp on what the encoder makes of `Mem`, `Packet` and `Atomic`.
use prevail.Prelude.{
  ℕ, ◌<◌, ◌≤◌, Bool, true, false, ◌==◌, ◌&&◌, ◌||◌, ltb, ◌≡◌, refl, ap, ◌⊎◌, inl, inr,
  if◌then◌else◌, List, [], ◌∷◌, arith,
}
use prevail.Prelude.Int.{ℤ, pos, eqb_ℤ, eq_of_parts, ℤ-discrete}
use prevail.Prelude.Result.{ok, IfOk, yields, throws, IfOk-bind, IfOk-value}
use prevail.Arith.Number.Narrow.{narrow-fits}
use prevail.Arith.Number.{narrow, sint}
use prevail.Ir.Syntax.{Mem, Value, imm, reg, Instruction}
use prevail.Ir.Isa.{EbpfInst, ebpf_inst, width_to_opcode, cls_ld, cls_st, op_lddw_imm, mode_mem}
use prevail.Ir.Platform.{Platform, Group, SupportsAll}
use prevail.Ir.Marshal.{of_mem, of_access, of_store_imm}
use prevail.Ir.Unmarshal.{throw_if, class_of, mode_of, zero_extend}
use prevail.Ir.Unmarshal.Memory.{make_mem_op, get_mem_width, by_mode, memory, get_mem_is_load}
use prevail.Ir.RoundTrip.{slot, ebpf_inst-slot, extend-narrow}
use prevail.Ir.RoundTrip.Reads.{Reads, one, decode-mem}
use Prim.Native.Nat.{bit_or}

-- The widths of memory accesses, with the bits that stand for them.
pub data Width : ℤ → ℕ → Type 0 where
  byte : Width (pos 1) 16
  half : Width (pos 2) 8
  word : Width (pos 4) 0
  double : Width (pos 8) 24

equal-or-not : (a b : ℤ) → (a ≡ b) ⊎ (eqb_ℤ a b ≡ false)
equal-or-not a b = elim (ℤ-discrete a b) [
  | yes e ↦ inl e
  | no n ↦ inr (ground (arith, eq_of_parts a b))
]

pub width_to_opcode-Width : (w : ℤ) → IfOk (Width w) (width_to_opcode w)
unfolding width_to_opcode
width_to_opcode-Width w = elim (equal-or-not w (pos 1)) [
  | inl e ↦ rw e (yields byte)
  | inr n1 ↦ rw n1 (elim (equal-or-not w (pos 2)) [
    | inl e ↦ rw e (yields half)
    | inr n2 ↦ rw n2 (elim (equal-or-not w (pos 4)) [
      | inl e ↦ rw e (yields word)
      | inr n4 ↦
          rw n4
            (elim (equal-or-not w (pos 8)) [ inl e ↦ rw e (yields double) | inr n8 ↦ rw n8 throws ])
    ])
  ])
]

abbrev to_mem : ℤ → ℕ → ℤ → Value → Bool → Mem
to_mem w base off v is_load = record {
  access = record { width = w; basereg = base; offset = off };
  value = v;
  is_load = is_load;
}

abbrev pub access : ℤ → ℕ → ℤ → Value → Bool → Instruction
access w base off v is_load = Instruction.mem (to_mem w base off v is_load)

module _ (p : Platform) (all : SupportsAll p) (insts : List EbpfInst) (pc : ℕ) where
  pub mem-Reads :
      (opcode d s : ℕ) (off i : ℤ) (ins : Instruction)
      → d ≤ 10
      → s ≤ 10
      → (class_of opcode == 0 && opcode == op_lddw_imm) ≡ false
      → (class_of opcode == 0
          || class_of opcode == 1
          || class_of opcode == 2
          || class_of opcode == 3)
        ≡ true
      → (opcode == 0) ≡ false
      → (w : ℤ) → get_mem_width opcode ≡ ok w
      → by_mode p pc (slot opcode d s off i) w (class_of opcode == cls_ld) (mode_of opcode) ≡ ok ins
      → Reads p insts pc ins (ebpf_inst opcode d s off i ∷ [])
  unfolding make_mem_op throw_if
  mem-Reads opcode d s off i ins hd hs hl hc hz w hw hm =
      let registers : (ltb 10 d || ltb 10 s) ≡ false = ground arith in
      rw (ebpf_inst-slot opcode d s off i hd hs) (
        one _
          (λ next.
            decode-mem p insts pc _ _ next hl hc
              (rw (registers, hw, all (if eqb_ℤ w (pos 8) then Group.base64 else Group.base32)) hm))
          hz)

  load-Reads :
      {w : ℤ} {k : ℕ} (base r : ℕ) (off : ℤ)
      → base ≤ 10
      → r ≤ 10
      → (r == 10) ≡ false
      → Width w k
      → IfOk
          (Reads p insts pc (access w base off (reg r) true))
          (of_access (bit_or mode_mem k) base off true (reg r))
  unfolding of_access get_mem_width by_mode memory get_mem_is_load throw_if
  load-Reads base r off hb hr h byte =
      yields (mem-Reads _ r base off _ _ hr hb refl refl refl _ refl (rw h refl))
  load-Reads base r off hb hr h half =
      yields (mem-Reads _ r base off _ _ hr hb refl refl refl _ refl (rw h refl))
  load-Reads base r off hb hr h word =
      yields (mem-Reads _ r base off _ _ hr hb refl refl refl _ refl (rw h refl))
  load-Reads base r off hb hr h double =
      yields (mem-Reads _ r base off _ _ hr hb refl refl refl _ refl (rw h refl))

  store-Reads :
      {w : ℤ} {k : ℕ} (base r : ℕ) (off : ℤ)
      → base ≤ 10
      → r ≤ 10
      → Width w k
      → IfOk
          (Reads p insts pc (access w base off (reg r) false))
          (of_access (bit_or mode_mem k) base off false (reg r))
  unfolding of_access get_mem_width by_mode memory get_mem_is_load throw_if
  store-Reads base r off hb hr byte =
      yields (mem-Reads _ base r off _ _ hb hr refl refl refl _ refl refl)
  store-Reads base r off hb hr half =
      yields (mem-Reads _ base r off _ _ hb hr refl refl refl _ refl refl)
  store-Reads base r off hb hr word =
      yields (mem-Reads _ base r off _ _ hb hr refl refl refl _ refl refl)
  store-Reads base r off hb hr double =
      yields (mem-Reads _ base r off _ _ hb hr refl refl refl _ refl refl)

  store_imm-at :
      {w : ℤ} {k : ℕ} (base v : ℕ) (off i : ℤ)
      → base ≤ 10
      → 0 ≤ 10
      → zero_extend i ≡ v
      → Width w k
      → Reads p insts pc
          (access w base off (imm v) false)
          (ebpf_inst (bit_or (bit_or mode_mem k) cls_st) base 0 off i ∷ [])
  unfolding get_mem_width by_mode memory get_mem_is_load throw_if
  store_imm-at base v off i hb h0 h byte =
      mem-Reads _ base 0 off i _ hb h0 refl refl refl _ refl
        (ap (λ u. ok (access (pos 1) base off (imm u) false)) h)
  store_imm-at base v off i hb h0 h half =
      mem-Reads _ base 0 off i _ hb h0 refl refl refl _ refl
        (ap (λ u. ok (access (pos 2) base off (imm u) false)) h)
  store_imm-at base v off i hb h0 h word =
      mem-Reads _ base 0 off i _ hb h0 refl refl refl _ refl
        (ap (λ u. ok (access (pos 4) base off (imm u) false)) h)
  store_imm-at base v off i hb h0 h double =
      mem-Reads _ base 0 off i _ hb h0 refl refl refl _ refl
        (ap (λ u. ok (access (pos 8) base off (imm u) false)) h)

  store_imm-Reads :
      {w : ℤ} {k : ℕ} (base v : ℕ) (off : ℤ)
      → base ≤ 10
      → Width w k
      → IfOk
          (Reads p insts pc (access w base off (imm v) false))
          (of_access (bit_or mode_mem k) base off false (imm v))
  unfolding of_access of_store_imm
  store_imm-Reads base v off hb k = IfOk-bind (narrow (sint 32) (pos v)) λ i e.
      yields (store_imm-at base v off i hb (omega arith) ((IfOk-value e (extend-narrow v)).1) k)

  -- What `makeMemOp` asks of a load or a store.
  of_mem-at :
      (w : ℤ) (base : ℕ) (off : ℤ) (v : Value) (is_load : Bool)
      → ((k : ℕ)
          → Width w k
          → IfOk
              (Reads p insts pc (access w base off v is_load))
              (of_access (bit_or mode_mem k) base off is_load v))
      → IfOk (Reads p insts pc (access w base off v is_load)) (
          of_mem (record {
            access = record { width = w; basereg = base; offset = off };
            value = v;
            is_load = is_load;
          }))
  unfolding of_mem
  of_mem-at w base off v is_load h = IfOk-bind (width_to_opcode w) λ k e.
      IfOk-bind (narrow (sint 16) off) λ off' e'.
        rw (IfOk-value e' (narrow-fits (sint 16) off)).0
          (h k (IfOk-value e (width_to_opcode-Width w)))

  -- A load, into a register that may be written.
  pub load_mem-Reads :
      (w : ℤ) (base r : ℕ) (off : ℤ)
      → base ≤ 10
      → r < 10
      → IfOk
          (Reads p insts pc (access w base off (reg r) true))
          (of_mem (to_mem w base off (reg r) true))
  load_mem-Reads w base r off hb hr =
      of_mem-at w base off (reg r) true
        (λ k. load-Reads base r off hb (omega (arith, hr)) (ground arith))

  -- A store, of a register or of an immediate.
  pub store_mem-Reads :
      (w : ℤ) (base : ℕ) (off : ℤ) (v : Value)
      → base ≤ 10
      → ((r : ℕ) → v ≡ reg r → r ≤ 10)
      → IfOk (Reads p insts pc (access w base off v false)) (of_mem (to_mem w base off v false))
  store_mem-Reads w base off (reg r) hb hv =
      of_mem-at w base off (reg r) false (λ k. store-Reads base r off hb (hv r refl))
  store_mem-Reads w base off (imm v) hb hv =
      of_mem-at w base off (imm v) false (λ k. store_imm-Reads base v off hb)
