-- ===== src/Ir/Unmarshal/Memory.antt =====
-- `getMemIsLoad`, `getMemWidth`, `getAtomicOp`, `makeMemOp` and `makeLddw` of src/ir/unmarshal.cpp.
use prevail.Prelude.{
  ℕ, Bool, true, false, not, ◌&&◌, ◌||◌, Option, none, some, ◌==◌, ltb, if◌then◌else◌,
}
use prevail.Prelude.Int.{ℤ, pos, ◌-ℤ◌, mod_ℕ, eqb_ℤ}
use prevail.Prelude.Result.{Result, ok, err, ◌>>=◌, ◌>>◌, unexpected_opcode, failed_assert}
use prevail.Ir.Syntax.{Value, imm, reg, BinOp, AtomicOp, Instruction}
use prevail.Ir.Isa.{
  EbpfInst, cls_ld, cls_ldx, cls_st, cls_stx, mode_abs, mode_ind, mode_mem, mode_atomic,
  ld_mode_imm, ld_mode_map_fd, ld_mode_map_value, merge,
}
use prevail.Ir.Platform.{Platform, Group}
use prevail.Ir.Unmarshal.{
  throw_if, reject, r10_stack_pointer, class_of, size_of, mode_of, zero_extend,
}
use Prim.Native.Nat.{bit_and}

unfoldable pub get_mem_is_load : ℕ → Result Bool
get_mem_is_load opcode =
    if class_of opcode == cls_ld || class_of opcode == cls_ldx
    then ok true
    else if class_of opcode == cls_st || class_of opcode == cls_stx
    then ok false
    else err unexpected_opcode

unfoldable pub get_mem_width : ℕ → Result ℤ
get_mem_width opcode =
    if size_of opcode == 16
    then ok (pos 1)
    else if size_of opcode == 8
    then ok (pos 2)
    else if size_of opcode == 0
    then ok (pos 4)
    else if size_of opcode == 24
    then ok (pos 8)
    else err unexpected_opcode

-- `imm & INST_FETCH`, the lowest bit, and `imm & ~INST_FETCH`, the rest.
abbrev pub has_fetch : ℤ → Bool
has_fetch i = not (mod_ℕ i 2 == 0)

abbrev pub without_fetch : ℤ → ℤ
without_fetch i = i -ℤ pos (mod_ℕ i 2)

unfoldable pub get_atomic_op : ℕ → ℤ → Result AtomicOp
get_atomic_op pc i =
    let op = without_fetch i in
    if eqb_ℤ op (pos 224)
    then (do throw_if pc (not (has_fetch i)); ok AtomicOp.xchg)
    else if eqb_ℤ op (pos 240)
    then (do throw_if pc (not (has_fetch i)); ok AtomicOp.cmpxchg)
    else if eqb_ℤ op (pos 0)
    then ok AtomicOp.add
    else if eqb_ℤ op (pos 64)
    then ok AtomicOp.or
    else if eqb_ℤ op (pos 80)
    then ok AtomicOp.and
    else if eqb_ℤ op (pos 160)
    then ok AtomicOp.xor
    else reject pc

-- What both arms of a packet access require.
unfoldable pub check_packet : Platform → ℕ → EbpfInst → ℤ → Bool → Result {0} Unit
check_packet p pc inst width is_ld = do
  throw_if pc (not (p.supports_group Group.packet) || not is_ld || eqb_ℤ width (pos 8))
  throw_if pc (not (inst.dst == 0))

unfoldable pub packet_abs : Platform → ℕ → EbpfInst → ℤ → Bool → Result Instruction
packet_abs p pc inst width is_ld = do
  check_packet p pc inst width is_ld
  throw_if pc (ltb 0 inst.src)
  throw_if pc (not (eqb_ℤ inst.offset (pos 0)))
  ok (Instruction.packet (record { width = width; offset = inst.imm; regoffset = none }))

unfoldable pub packet_ind : Platform → ℕ → EbpfInst → ℤ → Bool → Result Instruction
packet_ind p pc inst width is_ld = do
  check_packet p pc inst width is_ld
  throw_if pc (ltb r10_stack_pointer inst.src)
  throw_if pc (not (eqb_ℤ inst.offset (pos 0)))
  ok (Instruction.packet (record { width = width; offset = inst.imm; regoffset = some inst.src }))

abbrev pub memory_value : EbpfInst → Bool → Bool → Value
memory_value inst is_load is_imm =
    if is_load then reg inst.dst else if is_imm then imm (zero_extend inst.imm) else reg inst.src

unfoldable pub memory : ℕ → EbpfInst → ℤ → Bool → Result Instruction
memory pc inst width is_ld = do
  throw_if pc is_ld
  is_load ← get_mem_is_load inst.opcode
  throw_if pc (is_load && inst.dst == r10_stack_pointer)
  let is_imm = bit_and inst.opcode 1 == 0
  throw_if pc (is_imm && not (inst.src == 0))
  throw_if pc (not is_imm && not (eqb_ℤ inst.imm (pos 0)))
  (if is_load && is_imm
      then err failed_assert
      else ok (
          Instruction.mem (record {
            access = record {
              width = width;
              basereg = if is_load then inst.src else inst.dst;
              offset = inst.offset;
            };
            value = memory_value inst is_load is_imm;
            is_load = is_load;
          })))

unfoldable pub atomic : Platform → ℕ → EbpfInst → ℤ → Result Instruction
atomic p pc inst width = do
  throw_if pc (
      not (class_of inst.opcode == cls_stx)
      || not (size_of inst.opcode == 0) && not (size_of inst.opcode == 24))
  throw_if pc (
      not (p.supports_group (if size_of inst.opcode == 24 then Group.atomic64 else Group.atomic32)))
  op ← get_atomic_op pc inst.imm
  ok (
      Instruction.atomic (record {
        op = op;
        fetch = has_fetch inst.imm;
        access = record { width = width; basereg = inst.dst; offset = inst.offset };
        valreg = inst.src;
      }))

-- The switch on the mode.
unfoldable pub by_mode : Platform → ℕ → EbpfInst → ℤ → Bool → ℕ → Result Instruction
by_mode p pc inst width is_ld mode =
    if mode == 0
    then reject pc
    else if mode == mode_abs
    then packet_abs p pc inst width is_ld
    else if mode == mode_ind
    then packet_ind p pc inst width is_ld
    else if mode == mode_mem
    then memory pc inst width is_ld
    else if mode == mode_atomic
    then atomic p pc inst width
    else reject pc

unfoldable pub make_mem_op : Platform → ℕ → EbpfInst → Result Instruction
make_mem_op p pc inst = do
  throw_if pc (ltb r10_stack_pointer inst.dst || ltb r10_stack_pointer inst.src)
  width ← get_mem_width inst.opcode
  throw_if pc (not (p.supports_group (if eqb_ℤ width (pos 8) then Group.base64 else Group.base32)))
  by_mode p pc inst width (class_of inst.opcode == cls_ld) (mode_of inst.opcode)

-- The switch on the source field, for an immediate whose other half is in the next slot.
unfoldable pub lddw_by_src : ℕ → EbpfInst → ℤ → ℤ → Result Instruction
lddw_by_src pc inst next_imm imm_of_next =
    if inst.src == ld_mode_imm
    then ok (
        Instruction.bin (record {
          op = BinOp.mov;
          dst = inst.dst;
          v = imm (merge inst.imm next_imm);
          is64 = true;
          lddw = true;
        }))
    else if inst.src == ld_mode_map_fd
    then (do
      throw_if pc (not (eqb_ℤ imm_of_next (pos 0)))
      ok (Instruction.load_map_fd (record { dst = inst.dst; mapfd = inst.imm })))
    else if inst.src == ld_mode_map_value
    then ok (
        Instruction.load_map_address
          (record { dst = inst.dst; mapfd = inst.imm; offset = next_imm }))
    else reject pc

-- The next slot is absent where `pc >= insts.size() - 1`.
unfoldable pub make_lddw : Platform → ℕ → EbpfInst → ℤ → Option EbpfInst → Result Instruction
make_lddw p pc inst next_imm none = do throw_if pc (not (p.supports_group Group.base64)); reject pc
make_lddw p pc inst next_imm (some next) = do
  throw_if pc (not (p.supports_group Group.base64))
  throw_if pc (
      not (next.opcode == 0)
      || not (next.dst == 0)
      || not (next.src == 0)
      || not (eqb_ℤ next.offset (pos 0)))
  throw_if pc (ltb ld_mode_map_value inst.src)
  throw_if pc (not (eqb_ℤ inst.offset (pos 0)))
  throw_if pc (ltb r10_stack_pointer inst.dst)
  lddw_by_src pc inst next_imm next.imm
