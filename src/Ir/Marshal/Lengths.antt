-- ===== src/Ir/Marshal/Lengths.antt =====
-- The number of slots that an instruction's encoding takes, against the `size` that
-- src/ir/marshal.cpp counts them by.
use prevail.Prelude.{ℕ, ◌≡◌, refl, true, false, none, some, List, Option, if◌then◌else◌, not, Bool}
use prevail.Prelude.Int.{ℤ, pos, eqb_ℤ}
use prevail.Prelude.Result.{Result, ok, IfOk, yields, throws, IfOk-bind, IfOk-value}
use prevail.Prelude.Lists.{length}
use prevail.Arith.Number.{narrow, sint}
use prevail.Cfg.Label.{Label, label_to_offset16, label_to_offset32}
use prevail.Ir.Syntax.{Reg, Value, imm, reg, Bin, UnOp, Condition, Instruction}
use prevail.Ir.Isa.{EbpfInst, width_to_opcode}
use prevail.Ir.Marshal.{
  marshal_one, size, of_bin, of_lddw, of_alu, of_ja16, of_store_imm, of_un_op, of_jump,
  of_jump_always, of_access, of_packet_at, of_mem, of_packet, of_atomic, operand, condition_op,
  imm_endian, make_lddw,
}

-- The slots written: those of `size`, and none for a loop counter.
unfoldable pub slots : Instruction → ℕ
unfolding size
slots (Instruction.increment_loop_counter l) = 0
slots i = size i

abbrev Slots : ℕ → List EbpfInst → Type 0
Slots n es = length es ≡ n

of_un-Slots : (d : Reg) (is64 : Bool) (o : UnOp) → IfOk (Slots 1) (of_un_op d is64 o)
unfolding of_un_op imm_endian
of_un-Slots d is64 UnOp.neg = yields refl
of_un-Slots d is64 UnOp.be16 = yields refl
of_un-Slots d is64 UnOp.be32 = yields refl
of_un-Slots d is64 UnOp.be64 = yields refl
of_un-Slots d is64 UnOp.le16 = yields refl
of_un-Slots d is64 UnOp.le32 = yields refl
of_un-Slots d is64 UnOp.le64 = yields refl
of_un-Slots d is64 UnOp.swap16 = yields refl
of_un-Slots d is64 UnOp.swap32 = yields refl
of_un-Slots d is64 UnOp.swap64 = yields refl

of_lddw-Slots : (d : Reg) (v : Value) → IfOk (Slots 2) (of_lddw d v)
unfolding of_lddw make_lddw
of_lddw-Slots d (imm v) = yields refl
of_lddw-Slots d (reg r) = throws

if-Slots :
    {n m : ℕ} {r s : Result (List EbpfInst)} (t : Bool)
    → IfOk (Slots n) r
    → IfOk (Slots m) s
    → IfOk (Slots (if t then n else m)) (if t then r else s)
if-Slots true h k = h
if-Slots false h k = k

of_alu-Slots : (b : Bin) → IfOk (Slots 1) (of_alu b)
unfolding of_alu
of_alu-Slots b = IfOk-bind (operand _ b.v) λ p e. yields refl

of_bin-Slots : (b : Bin) → IfOk (Slots (if b.lddw then 2 else 1)) (of_bin b)
unfolding of_bin
of_bin-Slots b = if-Slots b.lddw (of_lddw-Slots b.dst b.v) (of_alu-Slots b)

of_ja16-Slots : (pc : ℕ) (l : Label) → IfOk (Slots 1) (of_ja16 pc l)
unfolding of_ja16
of_ja16-Slots pc l = IfOk-bind (label_to_offset16 pc l) λ p e. yields refl

of_store_imm-Slots :
    (opcode : ℕ) (base : Reg) (off : ℤ) (v : ℕ) → IfOk (Slots 1) (of_store_imm opcode base off v)
unfolding of_store_imm
of_store_imm-Slots opcode base off v = IfOk-bind (narrow (sint 32) (pos v)) λ p e. yields refl

if-one :
    {r s : Result (List EbpfInst)} (t : Bool)
    → IfOk (Slots 1) r
    → IfOk (Slots 1) s
    → IfOk (Slots 1) (if t then r else s)
if-one true h k = h
if-one false h k = k

of_jump_always-Slots : (pc : ℕ) (l : Label) (i : ℤ) → IfOk (Slots 1) (of_jump_always pc l i)
unfolding of_jump_always
of_jump_always-Slots pc l i = if-one (not (eqb_ℤ i (pos 0))) (yields refl) (of_ja16-Slots pc l)

of_jump-Slots : (pc : ℕ) (l : Label) (c : Option Condition) → IfOk (Slots 1) (of_jump pc l c)
unfolding of_jump
of_jump-Slots pc l (some c) = IfOk-bind (condition_op c.op) λ o e_o.
    IfOk-bind (label_to_offset16 pc l)
      λ off e_off. IfOk-bind (operand _ c.right) λ p e_p. yields refl
of_jump-Slots pc l none = IfOk-bind (label_to_offset32 pc l) λ i e_i. of_jump_always-Slots pc l i

of_access-Slots :
    (opcode : ℕ) (base : Reg) (off : ℤ) (is_load : Bool) (v : Value)
    → IfOk (Slots 1) (of_access opcode base off is_load v)
unfolding of_access
of_access-Slots opcode base off true (imm v) = throws
of_access-Slots opcode base off true (reg r) = yields refl
of_access-Slots opcode base off false (imm v) = of_store_imm-Slots opcode base off v
of_access-Slots opcode base off false (reg r) = yields refl

of_packet_at-Slots :
    (opcode : ℕ) (i : ℤ) (r : Option Reg) → IfOk (Slots 1) (of_packet_at opcode i r)
unfolding of_packet_at
of_packet_at-Slots opcode i (some r) = yields refl
of_packet_at-Slots opcode i none = yields refl

all_slots : (i : Instruction) (pc : ℕ) → IfOk (Slots (slots i)) (marshal_one i pc)
unfolding marshal_one slots size make_lddw of_mem of_packet of_atomic
all_slots (Instruction.undefined o) pc = throws
all_slots (Instruction.bin b) pc = of_bin-Slots b
all_slots (Instruction.un b) pc = of_un-Slots b.dst b.is64 b.op
all_slots (Instruction.load_map_fd b) pc = yields refl
all_slots (Instruction.call b) pc = yields refl
all_slots (Instruction.call_local b) pc =
    IfOk-bind (label_to_offset32 pc b.target) λ i e_i. yields refl
all_slots (Instruction.callx r) pc = yields refl
all_slots (Instruction.exit prefix) pc = yields refl
all_slots (Instruction.jmp b) pc = of_jump-Slots pc b.target b.cond
all_slots (Instruction.mem b) pc = IfOk-bind (width_to_opcode b.access.width) λ w e_w.
    IfOk-bind (narrow (sint 16) b.access.offset)
      λ off e_off. of_access-Slots _ b.access.basereg off b.is_load b.value
all_slots (Instruction.packet b) pc =
    IfOk-bind (width_to_opcode b.width)
      λ w e_w. IfOk-bind (narrow (sint 32) b.offset) λ i e_i. of_packet_at-Slots _ i b.regoffset
all_slots (Instruction.atomic b) pc =
    IfOk-bind (width_to_opcode b.access.width)
      λ w e_w. IfOk-bind (narrow (sint 16) b.access.offset) λ off e_off. yields refl
all_slots (Instruction.assume a) pc = throws
all_slots (Instruction.increment_loop_counter l) pc = yields refl
all_slots (Instruction.load_map_address b) pc = yields refl

-- The encoding of an instruction, where the encoder does not refuse it, takes as many slots as
-- size says, except that a loop counter takes none.
pub length-marshal_one :
    (i : Instruction) (pc : ℕ) (es : List EbpfInst) → marshal_one i pc ≡ ok es → length es ≡ slots i
length-marshal_one i pc es e = IfOk-value e (all_slots i pc)
