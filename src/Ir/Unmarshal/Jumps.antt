-- ===== src/Ir/Unmarshal/Jumps.antt =====
-- `getJmpOp`, `getJumpTarget`, `makeCallLocal`, `makeCallx` and `makeJmp` of src/ir/unmarshal.cpp.
-- The instructions of the program are the list `insts`.
use prevail.Prelude.{
  ℕ, ◌/◌, ◌%◌, ◌^◌, Bool, not, ◌&&◌, ◌||◌, Option, none, some, List, [], ◌==◌, ltb, if◌then◌else◌,
}
use prevail.Prelude.Int.{ℤ, pos, negsuc, ◌+ℤ◌, ltb_ℤ, eqb_ℤ, nat_abs, mod_ℕ}
use prevail.Prelude.Lists.{get_elem?}
use prevail.Prelude.Result.{Result, ok, ◌>>=◌, ◌>>◌}
use prevail.Arith.Number.{narrow, sint, uint}
use prevail.Cfg.Label.{Label, label}
use prevail.Ir.Syntax.{Value, imm, reg, ConditionOp, Condition, Instruction}
use prevail.Ir.Isa.{EbpfInst, cls_jmp, cls_jmp32, op_ja16, op_ja32}
use prevail.Ir.Platform.{Platform, Group}
use prevail.Ir.Unmarshal.{throw_if, reject, r10_stack_pointer, class_of, has_src_reg, sign_extend}
use prevail.Ir.Unmarshal.Calls.{make_call}

-- `(opcode >> 4) & 0xF`
abbrev pub jmp_op_of : ℕ → ℕ
jmp_op_of opcode = opcode / 2 ^ 4 % 2 ^ 4

unfoldable pub get_jmp_op : ℕ → ℕ → Result ConditionOp
get_jmp_op pc op =
    if op == 0
    then ok ConditionOp.eq
    else if op == 1
    then ok ConditionOp.eq
    else if op == 2
    then ok ConditionOp.gt
    else if op == 3
    then ok ConditionOp.ge
    else if op == 4
    then ok ConditionOp.set
    else if op == 5
    then ok ConditionOp.ne
    else if op == 6
    then ok ConditionOp.sgt
    else if op == 7
    then ok ConditionOp.sge
    else if op == 8
    then ok ConditionOp.eq
    else if op == 9
    then ok ConditionOp.eq
    else if op == 10
    then ok ConditionOp.lt
    else if op == 11
    then ok ConditionOp.le
    else if op == 12
    then ok ConditionOp.slt
    else if op == 13
    then ok ConditionOp.sle
    else reject pc

-- The arithmetic of `Pc`, a uint32_t.
abbrev pub new_pc : ℤ → ℕ → ℕ
new_pc offset pc = mod_ℕ (pos pc +ℤ pos 1 +ℤ offset) (2 ^ 32)

abbrev pub index_label : ℤ → Label
index_label i = label i (negsuc 0) []

-- The label of the slot that an offset leads to; no slot is an error, and so is the second half
-- of an lddw.
unfoldable pub label_of_slot : ℕ → ℕ → Option EbpfInst → Result Label
label_of_slot pc target none = reject pc
label_of_slot pc target (some inst) = do
  throw_if pc (inst.opcode == 0)
  i ← narrow (sint 32) (pos target)
  ok (index_label i)

unfoldable pub get_jump_target : ℤ → List EbpfInst → ℕ → Result Label
get_jump_target offset insts pc =
    let target = new_pc offset pc in label_of_slot pc target (get_elem? insts target)

unfoldable pub make_call_local : EbpfInst → List EbpfInst → ℕ → Result Instruction
make_call_local inst insts pc = do
  throw_if pc (has_src_reg inst.opcode)
  throw_if pc (not (inst.dst == 0))
  target ← get_jump_target inst.imm insts pc
  ok (Instruction.call_local (record { target = target; stack_frame_prefix = [] }))

unfoldable pub callx_by_imm : EbpfInst → ℕ → Result Instruction
callx_by_imm inst pc = do
  throw_if pc (ltb 0 inst.dst)
  throw_if pc (ltb_ℤ inst.imm (pos 0) || ltb_ℤ (pos r10_stack_pointer) inst.imm)
  func ← narrow (uint 8) inst.imm
  ok (Instruction.callx (nat_abs func))

unfoldable pub make_callx : EbpfInst → ℕ → Result Instruction
make_callx inst pc = do
  throw_if pc (ltb r10_stack_pointer inst.dst)
  (if not (eqb_ℤ inst.imm (pos 0)) then callx_by_imm inst pc else ok (Instruction.callx inst.dst))

unfoldable pub call_helper : Platform → EbpfInst → ℕ → Result Instruction
call_helper p inst pc = do
  throw_if pc (not (inst.dst == 0))
  throw_if pc (not (p.is_helper_usable inst.imm))
  c ← make_call p inst.imm
  ok (Instruction.call c)

-- The arm INST_CALL.
unfoldable pub make_any_call : Platform → EbpfInst → List EbpfInst → ℕ → Result Instruction
make_any_call p inst insts pc = do
  throw_if pc (not (class_of inst.opcode == cls_jmp))
  throw_if pc (not (p.supports_group Group.callx) && has_src_reg inst.opcode)
  throw_if pc (not (p.supports_group Group.base32))
  throw_if pc (not (ltb inst.src 2))
  throw_if pc (not (eqb_ℤ inst.offset (pos 0)))
  (if inst.src == 1
      then make_call_local inst insts pc
      else if has_src_reg inst.opcode
      then make_callx inst pc
      else call_helper p inst pc)

-- The arm INST_EXIT.
unfoldable pub make_exit : Platform → EbpfInst → ℕ → Result Instruction
make_exit p inst pc = do
  throw_if pc (not (p.supports_group Group.base32))
  throw_if pc (not (class_of inst.opcode == cls_jmp) || has_src_reg inst.opcode)
  throw_if pc (not (inst.src == 0))
  throw_if pc (not (inst.dst == 0))
  throw_if pc (not (eqb_ℤ inst.imm (pos 0)))
  throw_if pc (not (eqb_ℤ inst.offset (pos 0)))
  ok (Instruction.exit [])

-- What the arm INST_JA requires before it falls through.
unfoldable pub check_ja : Platform → EbpfInst → ℕ → Result {0} Unit
check_ja p inst pc = do
  throw_if pc (not (class_of inst.opcode == cls_jmp) && not (class_of inst.opcode == cls_jmp32))
  throw_if pc (not (p.supports_group Group.base32))
  throw_if pc (has_src_reg inst.opcode)
  throw_if pc (class_of inst.opcode == cls_jmp && not (eqb_ℤ inst.imm (pos 0)))
  throw_if pc (class_of inst.opcode == cls_jmp32 && not (eqb_ℤ inst.offset (pos 0)))
  throw_if pc (not (inst.dst == 0))

abbrev pub is_ja : ℕ → Bool
is_ja opcode = opcode == op_ja16 || opcode == op_ja32

abbrev pub jump_operand : EbpfInst → Value
jump_operand inst = if has_src_reg inst.opcode then reg inst.src else imm (sign_extend inst.imm)

unfoldable pub jump_cond : EbpfInst → ConditionOp → Option Condition
jump_cond inst op =
    if is_ja inst.opcode
    then none
    else some (record {
      op = op;
      left = inst.dst;
      right = jump_operand inst;
      is64 = class_of inst.opcode == cls_jmp;
    })

-- The default arm.
unfoldable pub make_jump : Platform → EbpfInst → List EbpfInst → ℕ → Result Instruction
make_jump p inst insts pc = do
  throw_if pc (
      not
        (p.supports_group (if class_of inst.opcode == cls_jmp then Group.base64 else Group.base32)))
  op ← get_jmp_op pc (jmp_op_of inst.opcode)
  throw_if pc (not (has_src_reg inst.opcode) && not (inst.src == 0))
  throw_if pc (has_src_reg inst.opcode && not (eqb_ℤ inst.imm (pos 0)))
  target ← get_jump_target (if inst.opcode == op_ja32 then inst.imm else inst.offset) insts pc
  throw_if pc (not (is_ja inst.opcode) && ltb r10_stack_pointer inst.dst)
  throw_if pc (not (is_ja inst.opcode) && has_src_reg inst.opcode && ltb r10_stack_pointer inst.src)
  ok (Instruction.jmp (record { cond = jump_cond inst op; target = target }))

unfoldable pub make_jmp : Platform → EbpfInst → List EbpfInst → ℕ → Result Instruction
make_jmp p inst insts pc =
    if jmp_op_of inst.opcode == 8
    then make_any_call p inst insts pc
    else if jmp_op_of inst.opcode == 9
    then make_exit p inst pc
    else if jmp_op_of inst.opcode == 0
    then (do check_ja p inst pc; make_jump p inst insts pc)
    else make_jump p inst insts pc
