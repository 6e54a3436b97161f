-- ===== src/Ir/Marshal.antt =====
-- The encoder of one instruction, of src/ir/marshal.cpp. A failed `assert` and the thrown
-- exceptions are errors. An opcode is the union of constants that fit eight bits together.
pub mod Lengths
pub mod Jumps
pub mod Sequence
pub mod Layout
use prevail.Prelude.{
  ℕ, ◌+◌, ◌*◌, ◌/◌, ◌%◌, ◌^◌, Bool, true, false, not, ◌&&◌, Option, none, some, List, [], ◌∷◌, ◌++◌,
  ◌==◌, if◌then◌else◌,
}
use prevail.Prelude.Int.{ℤ, pos, negsuc, eqb_ℤ}
use prevail.Prelude.Result.{
  Result, ok, err, ◌>>=◌, bad_marshal, no_value, not_a_register, invalid_width,
}
use prevail.Prelude.Lists.{length}
use prevail.Arith.Number.{narrow, static_cast, sint}
use prevail.Cfg.Label.{Label, Text, label, label_to_offset16, label_to_offset32}
use prevail.Ir.Syntax
use prevail.Ir.Syntax.{
  Reg, Imm, Value, imm, reg, Bin, BinOp, Un, UnOp, Condition, ConditionOp, Jmp, Mem, Atomic,
  AtomicOp, Packet, Instruction,
}
use prevail.Ir.Isa.{
  ebpf_inst, cls_ld, cls_st, cls_stx, cls_alu, cls_jmp, cls_jmp32, cls_alu64, src_reg, end_be,
  mode_abs, mode_ind, mode_mem, mode_atomic, op_call, op_callx, op_exit, alu_op_neg, alu_op_end,
  ld_mode_imm, ld_mode_map_fd, ld_mode_map_value, split, width_to_opcode, EbpfInst,
}
use Prim.Native.Nat.{bit_or}

unfoldable pub condition_op : ConditionOp → Result ℕ
condition_op ConditionOp.eq = ok 1
condition_op ConditionOp.gt = ok 2
condition_op ConditionOp.ge = ok 3
condition_op ConditionOp.set = ok 4
condition_op ConditionOp.nset = err bad_marshal
condition_op ConditionOp.ne = ok 5
condition_op ConditionOp.sgt = ok 6
condition_op ConditionOp.sge = ok 7
condition_op ConditionOp.lt = ok 10
condition_op ConditionOp.le = ok 11
condition_op ConditionOp.slt = ok 12
condition_op ConditionOp.sle = ok 13

unfoldable pub bin_op : BinOp → ℕ
bin_op BinOp.add = 0
bin_op BinOp.sub = 1
bin_op BinOp.mul = 2
bin_op BinOp.sdiv = 3
bin_op BinOp.udiv = 3
bin_op BinOp.or = 4
bin_op BinOp.and = 5
bin_op BinOp.lsh = 6
bin_op BinOp.rsh = 7
bin_op BinOp.smod = 9
bin_op BinOp.umod = 9
bin_op BinOp.xor = 10
bin_op BinOp.mov = 11
bin_op BinOp.movsx8 = 11
bin_op BinOp.movsx16 = 11
bin_op BinOp.movsx32 = 11
bin_op BinOp.arsh = 12

unfoldable pub bin_offset : BinOp → ℤ
bin_offset BinOp.sdiv = pos 1
bin_offset BinOp.smod = pos 1
bin_offset BinOp.movsx8 = pos 8
bin_offset BinOp.movsx16 = pos 16
bin_offset BinOp.movsx32 = pos 32
bin_offset o = pos 0

unfoldable pub imm_endian : UnOp → Result ℤ
imm_endian UnOp.neg = err bad_marshal
imm_endian UnOp.be16 = ok (pos 16)
imm_endian UnOp.le16 = ok (pos 16)
imm_endian UnOp.swap16 = ok (pos 16)
imm_endian UnOp.be32 = ok (pos 32)
imm_endian UnOp.le32 = ok (pos 32)
imm_endian UnOp.swap32 = ok (pos 32)
imm_endian UnOp.be64 = ok (pos 64)
imm_endian UnOp.le64 = ok (pos 64)
imm_endian UnOp.swap64 = ok (pos 64)

unfoldable pub make_lddw : Reg → ℕ → ℤ → ℤ → List EbpfInst
make_lddw d type i next_imm =
    ebpf_inst (bit_or cls_ld 24) d type (pos 0) i ∷ ebpf_inst 0 0 0 (pos 0) next_imm ∷ []

-- The opcode, the source register and the immediate of an operand, as the two visitors set them.
abbrev pub operand : ℕ → Value → Result (ℕ × ℕ × ℤ)
operand opcode (reg r) = ok (bit_or opcode src_reg, r, pos 0)
operand opcode (imm v) = do i ← narrow (sint 32) (pos v); ok (opcode, 0, i)

abbrev single : EbpfInst → Result (List EbpfInst)
single e = ok (e ∷ [])

unfoldable pub of_lddw : Reg → Value → Result (List EbpfInst)
of_lddw d (imm v) = let halves = split v in ok (make_lddw d ld_mode_imm halves.0 halves.1)
of_lddw d (reg r) = err bad_marshal

unfoldable pub of_alu : Bin → Result (List EbpfInst)
of_alu b = do
  (opcode, src, i) ←
      operand (bit_or (if b.is64 then cls_alu64 else cls_alu) (bin_op b.op * 2 ^ 4)) b.v
  single (ebpf_inst opcode b.dst src (bin_offset b.op) i)

unfoldable pub of_bin : Bin → Result (List EbpfInst)
of_bin b = if b.lddw then of_lddw b.dst b.v else of_alu b

abbrev endian : ℕ → Reg → UnOp → Result (List EbpfInst)
endian opcode d o = do i ← imm_endian o; ok (ebpf_inst opcode d 0 (pos 0) i ∷ [])

abbrev le_opcode : ℕ
le_opcode = bit_or cls_alu alu_op_end

abbrev be_opcode : ℕ
be_opcode = bit_or (bit_or cls_alu end_be) alu_op_end

abbrev swap_opcode : ℕ
swap_opcode = bit_or cls_alu64 alu_op_end

abbrev neg_opcode : Bool → ℕ
neg_opcode is64 = bit_or (if is64 then cls_alu64 else cls_alu) alu_op_neg

unfoldable pub of_un_op : Reg → Bool → UnOp → Result (List EbpfInst)
of_un_op d is64 UnOp.neg = single (ebpf_inst (neg_opcode is64) d 0 (pos 0) (pos 0))
of_un_op d is64 UnOp.le16 = endian le_opcode d UnOp.le16
of_un_op d is64 UnOp.le32 = endian le_opcode d UnOp.le32
of_un_op d is64 UnOp.le64 = endian le_opcode d UnOp.le64
of_un_op d is64 UnOp.be16 = endian be_opcode d UnOp.be16
of_un_op d is64 UnOp.be32 = endian be_opcode d UnOp.be32
of_un_op d is64 UnOp.be64 = endian be_opcode d UnOp.be64
of_un_op d is64 UnOp.swap16 = endian swap_opcode d UnOp.swap16
of_un_op d is64 UnOp.swap32 = endian swap_opcode d UnOp.swap32
of_un_op d is64 UnOp.swap64 = endian swap_opcode d UnOp.swap64

abbrev pub of_un : Un → Result (List EbpfInst)
of_un b = of_un_op b.dst b.is64 b.op

unfoldable pub of_ja16 : ℕ → Label → Result (List EbpfInst)
of_ja16 pc target = do off ← label_to_offset16 pc target; single (ebpf_inst cls_jmp 0 0 off (pos 0))

unfoldable pub of_jump_always : ℕ → Label → ℤ → Result (List EbpfInst)
of_jump_always pc target i =
    if not (eqb_ℤ i (pos 0)) then single (ebpf_inst cls_jmp32 0 0 (pos 0) i) else of_ja16 pc target

unfoldable pub of_jump : ℕ → Label → Option Condition → Result (List EbpfInst)
of_jump pc target (some c) = do
  o ← condition_op c.op
  off ← label_to_offset16 pc target
  (opcode, src, i) ← operand (bit_or cls_jmp (o * 2 ^ 4)) c.right
  single (ebpf_inst opcode c.left src off i)
of_jump pc target none = do i ← label_to_offset32 pc target; of_jump_always pc target i

abbrev pub of_jmp : ℕ → Jmp → Result (List EbpfInst)
of_jmp pc b = of_jump pc b.target b.cond

unfoldable pub of_store_imm : ℕ → Reg → ℤ → Imm → Result (List EbpfInst)
of_store_imm opcode base off v = do
  i ← narrow (sint 32) (pos v)
  single (ebpf_inst (bit_or opcode cls_st) base 0 off i)

-- A load into a register, or a store of a register or an immediate, with the opcode so far.
unfoldable pub of_access : ℕ → Reg → ℤ → Bool → Value → Result (List EbpfInst)
of_access opcode base off true (reg r) =
    single (ebpf_inst (bit_or opcode (bit_or cls_ld 1)) r base off (pos 0))
of_access opcode base off true (imm v) = err not_a_register
of_access opcode base off false (reg r) =
    single (ebpf_inst (bit_or (bit_or opcode cls_st) 1) base r off (pos 0))
of_access opcode base off false (imm v) = of_store_imm opcode base off v

unfoldable pub of_mem : Mem → Result (List EbpfInst)
of_mem b = do
  w ← width_to_opcode b.access.width
  off ← narrow (sint 16) b.access.offset
  of_access (bit_or mode_mem w) b.access.basereg off b.is_load b.value

unfoldable pub of_packet_at : ℕ → ℤ → Option Reg → Result (List EbpfInst)
of_packet_at opcode i (some r) = single (ebpf_inst (bit_or opcode mode_ind) 0 r (pos 0) i)
of_packet_at opcode i none = single (ebpf_inst (bit_or opcode mode_abs) 0 0 (pos 0) i)

unfoldable pub of_packet : Packet → Result (List EbpfInst)
of_packet b = do
  w ← width_to_opcode b.width
  i ← narrow (sint 32) b.offset
  of_packet_at (bit_or cls_ld w) i b.regoffset

unfoldable pub atomic_op : AtomicOp → ℕ
atomic_op AtomicOp.add = 0
atomic_op AtomicOp.or = 64
atomic_op AtomicOp.and = 80
atomic_op AtomicOp.xor = 160
atomic_op AtomicOp.xchg = 224
atomic_op AtomicOp.cmpxchg = 240

unfoldable pub of_atomic : Atomic → Result (List EbpfInst)
of_atomic b = do
  w ← width_to_opcode b.access.width
  off ← narrow (sint 16) b.access.offset
  let i = if b.fetch then bit_or (atomic_op b.op) 1 else atomic_op b.op
  ok (ebpf_inst (bit_or (bit_or cls_stx mode_atomic) w) b.access.basereg b.valreg off (pos i) ∷ [])

-- `marshal` of one instruction, at a program counter.
unfoldable pub marshal_one : Instruction → ℕ → Result (List EbpfInst)
marshal_one (Instruction.undefined o) pc = err bad_marshal
marshal_one (Instruction.bin b) pc = of_bin b
marshal_one (Instruction.un b) pc = of_un b
marshal_one (Instruction.load_map_fd b) pc = ok (make_lddw b.dst ld_mode_map_fd b.mapfd (pos 0))
marshal_one (Instruction.call b) pc = ok (ebpf_inst op_call 0 0 (pos 0) b.func ∷ [])
marshal_one (Instruction.call_local b) pc = do
  i ← label_to_offset32 pc b.target
  ok (ebpf_inst op_call 0 1 (pos 0) i ∷ [])
marshal_one (Instruction.callx r) pc = ok (ebpf_inst op_callx r 0 (pos 0) (pos 0) ∷ [])
marshal_one (Instruction.exit prefix) pc = ok (ebpf_inst op_exit 0 0 (pos 0) (pos 0) ∷ [])
marshal_one (Instruction.jmp b) pc = of_jmp pc b
marshal_one (Instruction.mem b) pc = of_mem b
marshal_one (Instruction.packet b) pc = of_packet b
marshal_one (Instruction.atomic b) pc = of_atomic b
marshal_one (Instruction.assume a) pc = err bad_marshal
marshal_one (Instruction.increment_loop_counter l) pc = ok []
marshal_one (Instruction.load_map_address b) pc =
    ok (make_lddw b.dst ld_mode_map_value b.mapfd b.offset)

unfoldable pub size : Instruction → ℕ
size (Instruction.bin b) = if b.lddw then 2 else 1
size (Instruction.load_map_fd b) = 2
size (Instruction.load_map_address b) = 2
size i = 1
