-- ===== src/Ir/RoundTrip/Branches.antt =====
-- `makeJmp` of src/ir/unmarshal.cpp on what the encoder makes of a conditional `Jmp`.
use prevail.Prelude.{
  ℕ, not, ◌&&◌, ◌*◌, ◌^◌, ◌≤◌, Bool, true, false, ◌==◌, ltb, ◌≡◌, refl, ap, ◌∙◌, some, List, [],
  ◌∷◌, inl, if◌then◌else◌, arith,
}
use prevail.Prelude.Int.{ℤ, pos, eqb_ℤ}
use prevail.Prelude.Result.{ok, IfOk, yields, throws, IfOk-bind, IfOk-bind_bind, IfOk-value}
use prevail.Arith.Number.{narrow, sint}
use prevail.Cfg.Label.{label_to_offset16, jump_offset, is16}
use prevail.Ir.Syntax.{Condition, ConditionOp, Value, imm, reg}
use prevail.Ir.Isa.{EbpfInst, ebpf_inst, cls_jmp, src_reg, op_ja16, op_ja32}
use prevail.Ir.Platform.{Platform, Group, SupportsAll}
use prevail.Ir.Marshal.{of_jump, condition_op}
use prevail.Ir.Marshal.Jumps.{label_to_offset16-value}
use prevail.Ir.Unmarshal.{throw_if, class_of, has_src_reg, sign_extend}
use prevail.Ir.Unmarshal.Jumps.{
  make_jmp, make_jump, get_jmp_op, jmp_op_of, jump_cond, get_jump_target,
}
use prevail.Ir.RoundTrip.{slot, ebpf_inst-slot, extend-narrow}
use prevail.Ir.RoundTrip.Reads.{Reads, one, decode-jmp}
use prevail.Ir.RoundTrip.Jumps.{Target, to, to_jump, get_jump_target-jump_offset}
use Prim.Native.Nat.{bit_or}

-- The fields of the opcode of a conditional jump, with a register operand or without.
pub record Fields (opcode : ℕ) (o : ConditionOp) (s : Bool) : Type 0 where
  class_of-jmp : class_of opcode ≡ cls_jmp
  get_jmp_op-ok : (pc : ℕ) → get_jmp_op pc (jmp_op_of opcode) ≡ ok o
  no_call : (jmp_op_of opcode == 8) ≡ false
  no_exit : (jmp_op_of opcode == 9) ≡ false
  no_goto : (jmp_op_of opcode == 0) ≡ false
  has_src_reg-s : has_src_reg opcode ≡ s
  ja16-false : (opcode == op_ja16) ≡ false
  ja32-false : (opcode == op_ja32) ≡ false
  pub opcode-nonzero : (opcode == 0) ≡ false

abbrev pub FieldsOf : ConditionOp → ℕ → Type 0
FieldsOf o k =
    Fields (bit_or cls_jmp (k * 2 ^ 4)) o false
    × Fields (bit_or (bit_or cls_jmp (k * 2 ^ 4)) src_reg) o true

pub condition_op-Fields : (o : ConditionOp) → IfOk (FieldsOf o) (condition_op o)
unfolding condition_op get_jmp_op
condition_op-Fields ConditionOp.eq = yields (ground arith, ground arith)
condition_op-Fields ConditionOp.ne = yields (ground arith, ground arith)
condition_op-Fields ConditionOp.set = yields (ground arith, ground arith)
condition_op-Fields ConditionOp.nset = throws
condition_op-Fields ConditionOp.lt = yields (ground arith, ground arith)
condition_op-Fields ConditionOp.le = yields (ground arith, ground arith)
condition_op-Fields ConditionOp.gt = yields (ground arith, ground arith)
condition_op-Fields ConditionOp.ge = yields (ground arith, ground arith)
condition_op-Fields ConditionOp.slt = yields (ground arith, ground arith)
condition_op-Fields ConditionOp.sle = yields (ground arith, ground arith)
condition_op-Fields ConditionOp.sgt = yields (ground arith, ground arith)
condition_op-Fields ConditionOp.sge = yields (ground arith, ground arith)

abbrev pub condition : ConditionOp → ℕ → Value → Condition
condition o l v = record { op = o; left = l; right = v; is64 = true }

module _ (p : Platform) (all : SupportsAll p) (insts : List EbpfInst) (pc t : ℕ) where
  jump_cond-slot :
      (o : ConditionOp) (s : Bool) (opcode l src : ℕ) (off i : ℤ)
      → Fields opcode o s
      → jump_cond (slot opcode l src off i) o
        ≡ some (condition o l (if s then reg src else imm (sign_extend i)))
  unfolding jump_cond
  jump_cond-slot o s opcode l src off i f =
      rw (f.ja16-false, f.ja32-false, f.class_of-jmp, f.has_src_reg-s) refl

  branch-Reads :
      (o : ConditionOp) (s : Bool) (opcode l src : ℕ) (off i : ℤ) (v : Value)
      → Fields opcode o s
      → l ≤ 10
      → src ≤ 10
      → (not s && not (src == 0)) ≡ false
      → (s && not (eqb_ℤ i (pos 0))) ≡ false
      → (if s then reg src else imm (sign_extend i)) ≡ v
      → get_jump_target off insts pc ≡ ok (to t)
      → Reads p insts pc (to_jump (some (condition o l v)) t) (ebpf_inst opcode l src off i ∷ [])
  unfolding make_jmp make_jump throw_if
  branch-Reads o s opcode l src off i v f hl hs h_imm h_reg hv ht =
      let left : ltb 10 l ≡ false = ground arith in
      let right : (s && ltb 10 src) ≡ false = ground arith in
      rw (ebpf_inst-slot opcode l src off i hl hs) (
        one _
          (λ next. decode-jmp p insts pc _ _ next (inl f.class_of-jmp) (
            rw
              (
                f.no_call,
                f.no_exit,
                f.no_goto,
                f.class_of-jmp,
                all Group.base64,
                f.get_jmp_op-ok pc,
                f.has_src_reg-s,
                h_imm,
                h_reg,
                f.ja32-false,
                ht,
                f.ja16-false,
                left,
                right,
                jump_cond-slot o s opcode l src off i f,
                hv,
              )
              refl))
          f.opcode-nonzero)

  module _ (o : ConditionOp) (l : ℕ) (h : Target insts t)
      (near : is16 (jump_offset pc (to t)) ≡ true) (hl : l ≤ 10) where
    offset-back :
        (off : ℤ) → label_to_offset16 pc (to t) ≡ ok off → get_jump_target off insts pc ≡ ok (to t)
    offset-back off e =
        ap (λ d. get_jump_target d insts pc)
          (IfOk-value e (label_to_offset16-value pc (to t))
            ∙ ap (λ b. if b then jump_offset pc (to t) else pos 0) near)
        ∙ get_jump_target-jump_offset insts pc t h

    pub of_jump_if-Reads :
        (v : Value)
        → ((r : ℕ) → v ≡ reg r → r ≤ 10)
        → IfOk
            (Reads p insts pc (to_jump (some (condition o l v)) t))
            (of_jump pc (to t) (some (condition o l v)))
    unfolding of_jump
    of_jump_if-Reads (reg r) hr = IfOk-bind (condition_op o) λ k e.
        IfOk-bind (label_to_offset16 pc (to t)) λ off e_off. yields (
          branch-Reads o true _ l r off (pos 0) (reg r) (IfOk-value e (condition_op-Fields o)).1 hl
            (hr r refl) refl refl refl (offset-back off e_off))
    of_jump_if-Reads (imm v) hr = IfOk-bind (condition_op o) λ k e.
        IfOk-bind (label_to_offset16 pc (to t)) λ off e_off.
          IfOk-bind_bind (narrow (sint 32) (pos v)) _ _ λ i e_i. yields (
            branch-Reads o false _ l 0 off i (imm v) (IfOk-value e (condition_op-Fields o)).0 hl
              (omega arith) refl refl (ap imm ((IfOk-value e_i (extend-narrow v)).0))
              (offset-back off e_off))
