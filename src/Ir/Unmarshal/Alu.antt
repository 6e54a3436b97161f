-- ===== src/Ir/Unmarshal/Alu.antt =====
-- `getAluOp` and `makeAluOp` of src/ir/unmarshal.cpp. The switches on the operation's bits are one
-- function, with the operation's bits, the source bit and the class as arguments.
use prevail.Prelude.{ℕ, Bool, false, not, ◌&&◌, ◌||◌, ◌==◌, ltb, if◌then◌else◌}
use prevail.Prelude.Int.{ℤ, pos, ltb_ℤ, eqb_ℤ}
use prevail.Prelude.Result.{Result, ok, ◌>>=◌, ◌>>◌}
use prevail.Ir.Syntax.{BinOp, UnOp, Instruction}
use prevail.Ir.Isa.{EbpfInst, cls_alu64}
use prevail.Ir.Platform.{Platform, Group}
use prevail.Ir.Unmarshal.{
  throw_if, reject, r10_stack_pointer, class_of, alu_op_of, has_src_reg, get_bin_value,
}

-- `std::variant<Bin::Op, Un::Op>`
pub data AluOp : Type 0 where
  binary : BinOp → AluOp
  unary : UnOp → AluOp

abbrev pub divmul : Bool → Group
divmul is64 = if is64 then Group.divmul64 else Group.divmul32

-- The arms of a division or remainder.
unfoldable pub division_op : Platform → ℕ → Bool → ℤ → BinOp → BinOp → Result AluOp
division_op p pc is64 offset unsigned_op signed_op = do
  throw_if pc (not (p.supports_group (divmul is64)))
  (if eqb_ℤ offset (pos 0)
      then ok (AluOp.binary unsigned_op)
      else if eqb_ℤ offset (pos 1)
      then ok (AluOp.binary signed_op)
      else reject pc)

unfoldable pub mov_op : ℕ → Bool → ℤ → Result AluOp
mov_op pc src_bit offset = do
  throw_if pc (ltb_ℤ (pos 0) offset && not src_bit)
  (if eqb_ℤ offset (pos 0)
      then ok (AluOp.binary BinOp.mov)
      else if eqb_ℤ offset (pos 8)
      then ok (AluOp.binary BinOp.movsx8)
      else if eqb_ℤ offset (pos 16)
      then ok (AluOp.binary BinOp.movsx16)
      else if eqb_ℤ offset (pos 32)
      then ok (AluOp.binary BinOp.movsx32)
      else reject pc)

unfoldable pub mul_op : Platform → ℕ → Bool → Result AluOp
mul_op p pc is64 = do
  throw_if pc (not (p.supports_group (divmul is64)))
  ok (AluOp.binary BinOp.mul)

unfoldable pub neg_op : ℕ → Bool → ℕ → ℤ → Result AluOp
neg_op pc src_bit src i = do
  throw_if pc src_bit
  throw_if pc (not (src == 0))
  throw_if pc (not (eqb_ℤ i (pos 0)))
  ok (AluOp.unary UnOp.neg)

-- The switch on the immediate of a byte swap: the operation for 16, 32 and 64 bits.
unfoldable pub end_width : Platform → ℕ → ℤ → UnOp → UnOp → UnOp → Result AluOp
end_width p pc i op16 op32 op64 =
    if eqb_ℤ i (pos 16)
    then (do throw_if pc (not (p.supports_group Group.base32)); ok (AluOp.unary op16))
    else if eqb_ℤ i (pos 32)
    then (do throw_if pc (not (p.supports_group Group.base32)); ok (AluOp.unary op32))
    else if eqb_ℤ i (pos 64)
    then (do throw_if pc (not (p.supports_group Group.base64)); ok (AluOp.unary op64))
    else reject pc

unfoldable pub end_op : Platform → ℕ → Bool → Bool → ℕ → ℤ → Result AluOp
end_op p pc is64 src_bit src i = do
  throw_if pc (not (src == 0))
  (if is64
      then (do throw_if pc src_bit; end_width p pc i UnOp.swap16 UnOp.swap32 UnOp.swap64)
      else (if src_bit
          then end_width p pc i UnOp.be16 UnOp.be32 UnOp.be64
          else end_width p pc i UnOp.le16 UnOp.le32 UnOp.le64))

-- The second switch: the operations that require a zero offset.
unfoldable pub plain_op : Platform → ℕ → Bool → ℕ → Bool → EbpfInst → Result AluOp
plain_op p pc is64 bits src_bit inst =
    if bits == 0
    then ok (AluOp.binary BinOp.add)
    else if bits == 16
    then ok (AluOp.binary BinOp.sub)
    else if bits == 32
    then mul_op p pc is64
    else if bits == 64
    then ok (AluOp.binary BinOp.or)
    else if bits == 80
    then ok (AluOp.binary BinOp.and)
    else if bits == 96
    then ok (AluOp.binary BinOp.lsh)
    else if bits == 112
    then ok (AluOp.binary BinOp.rsh)
    else if bits == 128
    then neg_op pc src_bit inst.src inst.imm
    else if bits == 160
    then ok (AluOp.binary BinOp.xor)
    else if bits == 192
    then ok (AluOp.binary BinOp.arsh)
    else if bits == 208
    then end_op p pc is64 src_bit inst.src inst.imm
    else if bits == 224
    then reject pc
    else if bits == 240
    then reject pc
    else ok (AluOp.binary BinOp.mov)

unfoldable pub op_by_bits : Platform → ℕ → Bool → ℕ → Bool → EbpfInst → Result AluOp
op_by_bits p pc is64 bits src_bit inst =
    if bits == 48
    then division_op p pc is64 inst.offset BinOp.udiv BinOp.sdiv
    else if bits == 144
    then division_op p pc is64 inst.offset BinOp.umod BinOp.smod
    else if bits == 176
    then mov_op pc src_bit inst.offset
    else (do throw_if pc (not (eqb_ℤ inst.offset (pos 0))); plain_op p pc is64 bits src_bit inst)

abbrev pub is_alu64 : EbpfInst → Bool
is_alu64 inst = class_of inst.opcode == cls_alu64

unfoldable pub get_alu_op : Platform → ℕ → EbpfInst → Result AluOp
get_alu_op p pc inst =
    op_by_bits p pc (is_alu64 inst) (alu_op_of inst.opcode) (has_src_reg inst.opcode) inst

abbrev pub base : Bool → Group
base is64 = if is64 then Group.base64 else Group.base32

-- The two visitors of the operation.
unfoldable pub with_op : ℕ → EbpfInst → AluOp → Result Instruction
with_op pc inst (AluOp.unary op) =
    ok (Instruction.un (record { op = op; dst = inst.dst; is64 = is_alu64 inst }))
with_op pc inst (AluOp.binary op) = do
  v ← get_bin_value pc inst
  ok (
      Instruction.bin
        (record { op = op; dst = inst.dst; v = v; is64 = is_alu64 inst; lddw = false }))

unfoldable pub make_alu_op : Platform → ℕ → EbpfInst → Result Instruction
make_alu_op p pc inst = do
  throw_if pc (not (p.supports_group (base (is_alu64 inst))))
  throw_if pc (inst.dst == r10_stack_pointer)
  throw_if pc (ltb r10_stack_pointer inst.dst || ltb r10_stack_pointer inst.src)
  op ← get_alu_op p pc inst
  with_op pc inst op
