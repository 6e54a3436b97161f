-- ===== src/Ir/Unmarshal.antt =====
-- The decoder of src/ir/unmarshal.cpp: here the fields of an opcode and the operand of an
-- instruction. `throw InvalidInstruction` is an error with its program counter; the message is left
-- out.
pub mod Alu
pub mod Memory
pub mod Calls
pub mod Jumps
pub mod Sequence
pub mod Sound
pub mod Arguments
use prevail.Prelude.{ℕ, ◌%◌, ◌/◌, Bool, not, ◌==◌, ltb, if◌then◌else◌}
use prevail.Prelude.Int.{ℤ, pos, nat_abs, eqb_ℤ}
use prevail.Prelude.Result.{Result, ok, err, ◌>>=◌, ◌>>◌, unexpected_opcode, invalid_instruction}
use prevail.Arith.Number.{static_cast, sint, uint}
use prevail.Ir.Syntax.{Value, imm, reg}
use prevail.Ir.Isa.{EbpfInst}
use Prim.Native.Nat.{bit_and}

-- `throw InvalidInstruction(pc, ...)`, under a condition.
unfoldable pub throw_if : ℕ → Bool → Result {0} Unit
throw_if pc t = if t then err (invalid_instruction pc) else ok tt

abbrev pub reject {ℓ} : {A : Type ℓ} → ℕ → Result A
reject pc = err (invalid_instruction pc)

abbrev pub r10_stack_pointer : ℕ
r10_stack_pointer = 10

-- `opcode & INST_CLS_MASK`, and so on; a mask of one bit is tested for being non-zero.
abbrev pub class_of : ℕ → ℕ
class_of opcode = bit_and opcode 7

abbrev pub alu_op_of : ℕ → ℕ
alu_op_of opcode = bit_and opcode 240

abbrev pub size_of : ℕ → ℕ
size_of opcode = bit_and opcode 24

abbrev pub mode_of : ℕ → ℕ
mode_of opcode = bit_and opcode 224

abbrev pub has_src_reg : ℕ → Bool
has_src_reg opcode = not (bit_and opcode 8 == 0)

unfoldable pub opcode_to_width : ℕ → Result ℤ
opcode_to_width opcode =
    if size_of opcode == 16
    then ok (pos 1)
    else if size_of opcode == 8
    then ok (pos 2)
    else if size_of opcode == 0
    then ok (pos 4)
    else if size_of opcode == 24
    then ok (pos 8)
    else err unexpected_opcode

-- `to_unsigned(int64_t{imm})` and `uint64_t{to_unsigned(imm)}`.
unfoldable pub sign_extend : ℤ → ℕ
sign_extend i = nat_abs (static_cast (uint 64) i)

unfoldable pub zero_extend : ℤ → ℕ
zero_extend i = nat_abs (static_cast (uint 32) i)

unfoldable pub get_bin_value : ℕ → EbpfInst → Result Value
get_bin_value pc inst =
    if has_src_reg inst.opcode
    then (do throw_if pc (not (eqb_ℤ inst.imm (pos 0))); ok (reg inst.src))
    else (do throw_if pc (not (inst.src == 0)); ok (imm (sign_extend inst.imm)))
