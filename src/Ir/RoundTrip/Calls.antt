-- ===== src/Ir/RoundTrip/Calls.antt =====
-- `makeJmp` of src/ir/unmarshal.cpp on what the encoder makes of `Call`, `CallLocal`, `Callx` and
-- `Exit`.
use prevail.Prelude.{ℕ, suc, ◌≤◌, true, false, ltb, ◌≡◌, refl, ap, ◌∙◌, List, [], ◌∷◌, inl, arith}
use prevail.Prelude.Int.{ℤ, pos, int_laws}
use prevail.Prelude.Result.{ok, IfOk, yields, IfOk-bind, IfOk-value}
use prevail.Arith.Number.{narrow, sint}
use prevail.Cfg.Label.{label_to_offset32, jump_offset, is16}
use prevail.Ir.Syntax.{Call, Instruction}
use prevail.Ir.Isa.{EbpfInst, ebpf_inst, op_call, op_callx, op_exit}
use prevail.Ir.Platform.{Platform, Group, SupportsAll}
use prevail.Ir.Marshal.{marshal_one}
use prevail.Ir.Marshal.Jumps.{narrow-value}
use prevail.Ir.Unmarshal.{throw_if}
use prevail.Ir.Unmarshal.Calls.{make_call}
use prevail.Ir.Unmarshal.Jumps.{
  make_jmp, make_any_call, make_call_local, make_callx, make_exit, call_helper, get_jump_target,
}
use prevail.Ir.RoundTrip.{ebpf_inst-slot}
use prevail.Ir.RoundTrip.Reads.{Reads, one, decode-jmp}
use prevail.Ir.RoundTrip.Jumps.{Target, to, get_jump_target-jump_offset}

abbrev pub to_call_local : ℕ → Instruction
to_call_local t = Instruction.call_local (record { target = to t; stack_frame_prefix = [] })

next-offset : (pc : ℕ) → pos 0 ≡ jump_offset pc (to (suc pc))
next-offset pc = omega int_laws

module _ (p : Platform) (all : SupportsAll p) (insts : List EbpfInst) (pc : ℕ) where
  pub exit-Reads :
      Reads p insts pc (Instruction.exit []) (ebpf_inst op_exit 0 0 (pos 0) (pos 0) ∷ [])
  unfolding make_jmp make_exit throw_if
  exit-Reads =
      one _ (λ next. decode-jmp p insts pc _ _ next (inl refl) (rw (all Group.base32) refl)) refl

  pub callx-Reads :
      (r : ℕ)
      → r ≤ 10
      → Reads p insts pc (Instruction.callx r) (ebpf_inst op_callx r 0 (pos 0) (pos 0) ∷ [])
  unfolding make_jmp make_any_call make_callx throw_if
  callx-Reads r h =
      let register : ltb 10 r ≡ false = ground arith in
      rw (ebpf_inst-slot op_callx r 0 (pos 0) (pos 0) h (omega arith)) (
        one _
          (λ next.
            decode-jmp p insts pc _ _ next (inl refl)
              (rw (all Group.base32, all Group.callx, register) refl))
          refl)

  pub call-Reads :
      (c : Call)
      → p.is_helper_usable c.func ≡ true
      → make_call p c.func ≡ ok c
      → Reads p insts pc (Instruction.call c) (ebpf_inst op_call 0 0 (pos 0) c.func ∷ [])
  unfolding make_jmp make_any_call call_helper throw_if
  call-Reads c usable h =
      one _
        (λ next.
          decode-jmp p insts pc _ _ next (inl refl)
            (rw (all Group.base32, all Group.callx, usable, h) refl))
        refl

  call_local-Reads :
      (i : ℤ) (t : ℕ)
      → get_jump_target i insts pc ≡ ok (to t)
      → Reads p insts pc (to_call_local t) (ebpf_inst op_call 0 1 (pos 0) i ∷ [])
  unfolding make_jmp make_any_call make_call_local throw_if
  call_local-Reads i t h =
      one _
        (λ next.
          decode-jmp p insts pc _ _ next (inl refl)
            (rw (all Group.base32, all Group.callx, h) refl))
        refl

  -- A call whose displacement does not fit in 16 bits is read back.
  pub far_call_local-Reads :
      (t : ℕ)
      → Target insts t
      → is16 (jump_offset pc (to t)) ≡ false
      → IfOk (Reads p insts pc (to_call_local t)) (marshal_one (to_call_local t) pc)
  unfolding marshal_one label_to_offset32
  far_call_local-Reads t h far = rw far (
      IfOk-bind (narrow (sint 32) (jump_offset pc (to t))) λ i e. yields (
        call_local-Reads i t (
          ap (λ d. get_jump_target d insts pc)
            (IfOk-value e (narrow-value 32 (jump_offset pc (to t))))
          ∙ get_jump_target-jump_offset insts pc t h)))

  -- On a platform that supports all groups of instructions, a local call whose target's
  -- displacement fits in 16 bits, in a sequence whose next slot is there and is not the second
  -- half of an lddw, is read back, where it is encoded, as a call of the next instruction.
  pub near_call_local-Reads :
      (t : ℕ)
      → Target insts (suc pc)
      → is16 (jump_offset pc (to t)) ≡ true
      → IfOk (Reads p insts pc (to_call_local (suc pc))) (marshal_one (to_call_local t) pc)
  unfolding marshal_one label_to_offset32
  near_call_local-Reads t h near = rw near (
      yields (
        call_local-Reads (pos 0) (suc pc) (
          ap (λ d. get_jump_target d insts pc) (next-offset pc)
          ∙ get_jump_target-jump_offset insts pc (suc pc) h)))
