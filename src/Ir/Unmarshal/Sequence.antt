-- ===== src/Ir/Unmarshal/Sequence.antt =====
-- `Unmarshaller::unmarshal` and `unmarshal` of src/ir/unmarshal.cpp: the loop over the slots, with
-- the merging of two shifts. What it only writes down, the notes and the line information, is left
-- out.
use prevail.Prelude.{
  ℕ, suc, Bool, true, false, not, ◌&&◌, ◌||◌, Option, none, some, ◌⊎◌, inl, inr, List, [], ◌∷◌,
  ◌==◌, if◌then◌else◌,
}
use prevail.Prelude.Int.{ℤ, pos}
use prevail.Prelude.Result.{
  Result, ok, err, ◌>>=◌, unexpected_opcode, empty_program, invalid_instruction,
}
use prevail.Arith.Number.{narrow, sint}
use prevail.Ir.Syntax.{Reg, Value, imm, reg, BinOp, Instruction}
use prevail.Ir.Isa.{
  EbpfInst, cls_ld, cls_ldx, cls_st, cls_stx, cls_alu, cls_alu64, cls_jmp, cls_jmp32, op_lddw_imm,
}
use prevail.Ir.Marshal.Sequence.{InstructionSeq}
use prevail.Ir.Platform.{Platform}
use prevail.Ir.Unmarshal.{class_of}
use prevail.Ir.Unmarshal.Alu.{make_alu_op}
use prevail.Ir.Unmarshal.Memory.{make_mem_op, make_lddw}
use prevail.Ir.Unmarshal.Jumps.{make_jmp, index_label}

-- The operations that the merging compares.
unfoldable pub is_lsh : BinOp → Bool
is_lsh BinOp.lsh = true
is_lsh _ = false

unfoldable pub is_rsh : BinOp → Bool
is_rsh BinOp.rsh = true
is_rsh _ = false

unfoldable pub is_arsh : BinOp → Bool
is_arsh BinOp.arsh = true
is_arsh _ = false

unfoldable pub is_imm_32 : Value → Bool
is_imm_32 (imm v) = v == 32
is_imm_32 (reg r) = false

-- Equality with `shift32(dst, op)`, the operation given by its test.
unfoldable pub is_shift32 : Reg → (BinOp → Bool) → Instruction → Bool
is_shift32 dst is_op (Instruction.bin b) =
    is_op b.op && b.dst == dst && is_imm_32 b.v && b.is64 && not b.lddw
is_shift32 dst is_op _ = false

unfoldable pub merged : BinOp → Reg → Bool → Instruction
merged op dst is64 =
    Instruction.bin (record { op = op; dst = dst; v = reg dst; is64 = is64; lddw = false })

-- The two shifts become one move; the flag says that the next slot is taken too.
unfoldable pub merge_with : Reg → Instruction → Instruction → Instruction × Bool
merge_with dst new_ins next_ins =
    if is_shift32 dst is_rsh next_ins
    then (merged BinOp.mov dst false, true)
    else if is_shift32 dst is_arsh next_ins
    then (merged BinOp.movsx32 dst true, true)
    else (new_ins, false)

unfoldable pub merge_shifts :
    Platform → ℕ → Reg → Instruction → Option EbpfInst → Result (Instruction × Bool)
merge_shifts p pc dst new_ins none = ok (new_ins, false)
merge_shifts p pc dst new_ins (some next) =
    if not (is_shift32 dst is_lsh new_ins) || not (class_of next.opcode == cls_alu64)
    then ok (new_ins, false)
    else (do next_ins ← make_alu_op p (suc pc) next; ok (merge_with dst new_ins next_ins))

abbrev next_imm : Option EbpfInst → ℤ
next_imm none = pos 0
next_imm (some next) = next.imm

abbrev alone : Result Instruction → Result (Instruction × Bool)
alone r = do i ← r; ok (i, false)

-- One round of the loop: the instruction, and `skip_instruction`.
unfoldable pub decode :
    Platform → List EbpfInst → ℕ → EbpfInst → Option EbpfInst → Result (Instruction × Bool)
decode p insts pc inst next =
    let c = class_of inst.opcode in
    if c == cls_ld && inst.opcode == op_lddw_imm
    then (do i ← make_lddw p pc inst (next_imm next) next; ok (i, true))
    else if c == cls_ld || c == cls_ldx || c == cls_st || c == cls_stx
    then alone (make_mem_op p pc inst)
    else if c == cls_alu || c == cls_alu64
    then (do i ← make_alu_op p pc inst; merge_shifts p pc inst.dst i next)
    else if c == cls_jmp32 || c == cls_jmp
    then alone (make_jmp p inst insts pc)
    else err unexpected_opcode

-- The loop, from the slots that are left and their program counter.
unfoldable pub unmarshal_from : Platform → List EbpfInst → ℕ → List EbpfInst → Result InstructionSeq
unmarshal_from p insts pc [] = ok []
unmarshal_from p insts pc (inst ∷ []) = do
  (i, skip) ← decode p insts pc inst none
  at ← narrow (sint 32) (pos pc)
  ok ((index_label at, i) ∷ [])
unmarshal_from p insts pc (inst ∷ next ∷ rest) = do
  (i, skip) ← decode p insts pc inst (some next)
  at ← narrow (sint 32) (pos pc)
  more ← elim skip [
    | true ↦ unmarshal_from p insts (suc (suc pc)) rest
    | false ↦ unmarshal_from p insts (suc pc) (next ∷ rest)
  ]
  ok ((index_label at, i) ∷ more)

unfoldable pub unmarshal_insts : Platform → List EbpfInst → Result InstructionSeq
unmarshal_insts p [] = err empty_program
unmarshal_insts p (inst ∷ rest) = unmarshal_from p (inst ∷ rest) 0 (inst ∷ rest)

-- `InvalidInstruction` becomes a message, here its program counter; the other exceptions pass.
unfoldable pub caught : Result InstructionSeq → Result (InstructionSeq ⊎ ℕ)
caught (ok prog) = ok (inl prog)
caught (err (invalid_instruction pc)) = ok (inr pc)
caught (err e) = err e

unfoldable pub unmarshal : Platform → List EbpfInst → Result (InstructionSeq ⊎ ℕ)
unmarshal p insts = caught (unmarshal_insts p insts)
