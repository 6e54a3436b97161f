-- ===== src/Ir/Unmarshal/Sound/Targets.antt =====
-- The targets and registers of the instructions that src/ir/unmarshal.cpp makes of jumps and calls.
use prevail.Prelude.{
  ℕ, ◌≤◌, Bool, true, false, not, ◌&&◌, ◌||◌, ◌==◌, ltb, ◌≡◌, refl, ap, Option, none, some, List,
  if◌then◌else◌, arith,
}
use prevail.Prelude.Int.{ℤ, pos, ltb_ℤ, eqb_ℤ, nat_abs}
use prevail.Prelude.Lists.{get_elem?}
use prevail.Prelude.Result.{IfOk, IfOk-if, yields, throws, IfOk-bind, IfOk-then, IfOk-value}
use prevail.Arith.Number.Narrow.{narrow-fits}
use prevail.Arith.Number.{narrow, sint, uint}
use prevail.Ir.Syntax.{imm, reg, ConditionOp}
use prevail.Ir.Isa.{EbpfInst, op_ja32}
use prevail.Ir.Platform.{Platform}
use prevail.Ir.Marshal.Jumps.{narrow-value}
use prevail.Ir.Unmarshal.{has_src_reg}
use prevail.Ir.Unmarshal.Calls.{make_call}
use prevail.Ir.Unmarshal.Jumps.{
  label_of_slot, get_jump_target, make_call_local, callx_by_imm, make_callx, call_helper,
  make_any_call, make_exit, check_ja, make_jump, make_jmp, get_jmp_op, jmp_op_of, jump_cond,
  index_label, new_pc, is_ja,
}
use prevail.Ir.Unmarshal.Sound.{IsRegister, LeadsTo, SoundCond, Sound, checked}

small : (i : ℤ) → (ltb_ℤ i (pos 0) || ltb_ℤ (pos 10) i) ≡ false → nat_abs i ≤ 10
small i h = ground arith

operands-Sound :
    (ja s is64 : Bool) (op : ConditionOp) (d src v : ℕ)
    → (not ja && ltb 10 d) ≡ false
    → (not ja && s && ltb 10 src) ≡ false
    → SoundCond (
        if ja
        then none
        else some (record { op = op; left = d; right = if s then reg src else imm v; is64 = is64 }))
unfolding SoundCond IsRegister
operands-Sound true s is64 op d src v left right = tt
operands-Sound false true is64 op d src v left right = (ground arith, ground arith)
operands-Sound false false is64 op d src v left right = (ground arith, tt)

module _ (p : Platform) (insts : List EbpfInst) (pc : ℕ) where
  label_of_slot-LeadsTo :
      (t : ℕ) (found : Option EbpfInst)
      → get_elem? insts t ≡ found
      → IfOk (LeadsTo insts) (label_of_slot pc t found)
  unfolding label_of_slot
  label_of_slot-LeadsTo t none h = throws
  label_of_slot-LeadsTo t (some inst) h = checked pc _ λ z.
      IfOk-bind (narrow (sint 32) (pos t)) λ i e. yields record {
        index = t;
        slot = inst;
        get_elem?-index = h;
        slot-nonzero = z;
        label-index = ap index_label (IfOk-value e (narrow-value 32 (pos t)));
      }

  get_jump_target-LeadsTo : (offset : ℤ) → IfOk (LeadsTo insts) (get_jump_target offset insts pc)
  unfolding get_jump_target
  get_jump_target-LeadsTo offset = label_of_slot-LeadsTo (new_pc offset pc) _ refl

  module _ (e : EbpfInst) where
    make_call_local-Sound : IfOk (Sound insts) (make_call_local e insts pc)
    unfolding make_call_local Sound
    make_call_local-Sound = checked pc _ λ _. checked pc _ λ _.
        IfOk-bind (get_jump_target e.imm insts pc)
          λ l e_l. yields (IfOk-value e_l (get_jump_target-LeadsTo e.imm))

    make_callx-Sound : IfOk (Sound insts) (make_callx e pc)
    unfolding make_callx callx_by_imm Sound
    make_callx-Sound = checked pc _ λ low.
        IfOk-if (not (eqb_ℤ e.imm (pos 0)))
          (λ _. checked pc _ λ _. checked pc _ λ range. IfOk-bind (narrow (uint 8) e.imm) λ f e_f.
            yields (rw (IfOk-value e_f (narrow-fits (uint 8) e.imm)).0 (small e.imm range)))
          (λ _. yields (ground arith))

    call_helper-Sound : IfOk (Sound insts) (call_helper p e pc)
    unfolding call_helper Sound
    call_helper-Sound =
        checked pc _ λ _. checked pc _ λ _. IfOk-bind (make_call p e.imm) λ c _. yields tt

    make_any_call-Sound : IfOk (Sound insts) (make_any_call p e insts pc)
    unfolding make_any_call
    make_any_call-Sound = checked pc _ λ _. checked pc _ λ _. checked pc _ λ _. checked pc _ λ _.
        checked pc _ λ _.
          IfOk-if (e.src == 1) (λ _. make_call_local-Sound)
            λ _. IfOk-if (has_src_reg e.opcode) (λ _. make_callx-Sound) λ _. call_helper-Sound

    make_exit-Sound : IfOk (Sound insts) (make_exit p e pc)
    unfolding make_exit Sound
    make_exit-Sound = checked pc _ λ _.
        checked pc _
          λ _. checked pc _ λ _. checked pc _ λ _. checked pc _ λ _. checked pc _ λ _. yields tt

    jump_cond-Sound :
        (op : ConditionOp)
        → (not (is_ja e.opcode) && ltb 10 e.dst) ≡ false
        → (not (is_ja e.opcode) && has_src_reg e.opcode && ltb 10 e.src) ≡ false
        → SoundCond (jump_cond e op)
    unfolding jump_cond
    jump_cond-Sound op left right = operands-Sound _ _ _ op _ _ _ left right

    make_jump-Sound : IfOk (Sound insts) (make_jump p e insts pc)
    unfolding make_jump Sound
    make_jump-Sound = checked pc _ λ _. IfOk-bind (get_jmp_op pc (jmp_op_of e.opcode)) λ op _.
        checked pc _ λ _. checked pc _ λ _.
          IfOk-bind (get_jump_target (if e.opcode == op_ja32 then e.imm else e.offset) insts pc)
            λ l e_l. checked pc _ λ left. checked pc _ λ right.
              yields (IfOk-value e_l (get_jump_target-LeadsTo _), jump_cond-Sound op left right)

    pub make_jmp-Sound : IfOk (Sound insts) (make_jmp p e insts pc)
    unfolding make_jmp
    make_jmp-Sound =
        IfOk-if (jmp_op_of e.opcode == 8) (λ _. make_any_call-Sound)
          λ _.
            IfOk-if (jmp_op_of e.opcode == 9) (λ _. make_exit-Sound)
              λ _.
                IfOk-if (jmp_op_of e.opcode == 0) (λ _. IfOk-then (check_ja p e pc) make_jump-Sound)
                  λ _. make_jump-Sound
