-- ===== src/Ir/Assertions.antt =====
-- `AssertExtractor` of src/ir/assertions.cpp: the assertions that guard each instruction. Of the
-- program's information it reads `info.type.is_privileged`, and of the instruction's place the
-- label.
pub mod Privilege
pub mod Accesses
use mathlib.Core.List.{List, [], ◌∷◌, ◌++◌}
use prevail.Prelude.{
  ℕ, ◌-◌, ◌^◌, Bool, true, false, not, ◌&&◌, ◌||◌, Option, none, some, ◌==◌, if◌then◌else◌,
}
use prevail.Prelude.Int.{ℤ, pos, negsuc, ◌+ℤ◌, ltb_ℤ, eqb_ℤ, nat_abs}
use prevail.Prelude.Result.{Result, ok, err, ◌>>=◌, no_value, no_fit}
use prevail.Arith.Number
use prevail.Arith.Number.{sint, uint}
use prevail.Cfg.Label.{Label, Text, call_stack_depth, is_empty}
use prevail.Ir.Syntax
use prevail.Ir.Syntax.{
  Reg, Imm, Value, imm, reg, Bin, BinOp, Un, Condition, ConditionOp, Jmp, Call, ArgSingle,
  ArgSingleKind, ArgPair, ArgPairKind, Mem, Atomic, Assume, Instruction, Assertion, TypeGroup,
  AccessType, ValidAccess, read, write, comparable, addable, valid_divisor, valid_access,
  valid_store, valid_size, valid_map_key_value, valid_call, type_constraint, func_constraint,
  zero_ctx_offset, bounded_loop_count,
}

abbrev pub r0_return_value : Reg
r0_return_value = 0

abbrev pub r10_stack_pointer : Reg
r10_stack_pointer = 10

abbrev pub subprogram_stack_size : ℕ
subprogram_stack_size = 512

-- The members of `AssertExtractor` that its operations read.
pub record Extractor : Type 0 where
  pub is_privileged : Bool
  pub current_label : Option Label

unfoldable pub zero_offset_ctx : Reg → Bool → List Assertion
zero_offset_ctx r or_null =
    type_constraint r (if or_null then TypeGroup.ctx_or_num else TypeGroup.ctx)
    ∷ zero_ctx_offset r or_null
    ∷ []

unfoldable pub depth_of : Option Label → ℕ
depth_of (some l) = call_stack_depth l
depth_of none = 1

unfoldable pub make_valid_access : Extractor → Reg → ℤ → Value → Bool → AccessType → Assertion
make_valid_access x r offset width or_null access_type = valid_access (record {
  call_stack_depth = depth_of x.current_label;
  reg = r;
  offset = offset;
  width = width;
  or_null = or_null;
  access_type = access_type;
})

-- `make_valid_access(reg)`, with the defaults of the other arguments.
abbrev pub compare_access : Extractor → Reg → Assertion
compare_access x r = make_valid_access x r (pos 0) (imm 0) false AccessType.compare

-- A map key or value needs the map's register: reading it where none was seen is an error.
unfoldable pub key_or_value : Reg → Bool → Option Reg → Result (List Assertion × Option Reg)
key_or_value r key none = err no_value
key_or_value r key (some fd) =
    ok (type_constraint r TypeGroup.mem ∷ valid_map_key_value r fd key ∷ [], some fd)

-- One round of the loop over the single arguments, by the argument's kind, register and `or_null`;
-- it passes on the last map register seen.
unfoldable pub of_single :
    Bool → ArgSingleKind → Reg → Bool → Option Reg → Result (List Assertion × Option Reg)
of_single privileged ArgSingleKind.anything r or_null fd =
    ok ((if privileged then [] else type_constraint r TypeGroup.number ∷ []), fd)
of_single privileged ArgSingleKind.map_fd_programs r or_null fd =
    ok (type_constraint r TypeGroup.map_fd_programs ∷ [], fd)
of_single privileged ArgSingleKind.map_fd r or_null fd =
    ok (type_constraint r TypeGroup.map_fd ∷ [], some r)
of_single privileged ArgSingleKind.ptr_to_map_key r or_null fd = key_or_value r true fd
of_single privileged ArgSingleKind.ptr_to_map_value r or_null fd = key_or_value r false fd
of_single privileged ArgSingleKind.ptr_to_stack r or_null fd =
    ok (type_constraint r (if or_null then TypeGroup.stack_or_num else TypeGroup.stack) ∷ [], fd)
of_single privileged ArgSingleKind.ptr_to_ctx r or_null fd = ok (zero_offset_ctx r or_null, fd)

unfoldable pub of_singles : Bool → List ArgSingle → Option Reg → Result (List Assertion)
of_singles privileged [] fd = ok []
of_singles privileged (arg ∷ args) fd = do
  (first, fd') ← of_single privileged arg.kind arg.reg arg.or_null fd
  others ← of_singles privileged args fd'
  ok (first ++ others)

abbrev pair_access : ArgPairKind → AccessType
pair_access ArgPairKind.ptr_to_readable_mem = read
pair_access ArgPairKind.ptr_to_writable_mem = write

unfoldable pub of_pair : Extractor → ArgPair → List Assertion
of_pair x arg =
    type_constraint arg.size TypeGroup.number
    ∷ valid_size arg.size arg.can_be_zero
    ∷ type_constraint arg.mem (if arg.or_null then TypeGroup.mem_or_num else TypeGroup.mem)
    ∷ make_valid_access x arg.mem (pos 0) (reg arg.size) arg.or_null (pair_access arg.kind)
    ∷ []

unfoldable pub of_pairs : Extractor → List ArgPair → List Assertion
of_pairs x [] = []
of_pairs x (arg ∷ args) = of_pair x arg ++ of_pairs x args

unfoldable pub of_call : Extractor → Call → Result (List Assertion)
of_call x c = do
  singles ← of_singles x.is_privileged c.singles none
  ok (valid_call c.func c.stack_frame_prefix ∷ (singles ++ of_pairs x c.pairs))

-- The switch of `explicate`: the comparisons with 0 that a pointer may take part in.
unfoldable pub allows_pointers : ConditionOp → Bool
allows_pointers ConditionOp.slt = false
allows_pointers ConditionOp.sle = false
allows_pointers ConditionOp.sgt = false
allows_pointers ConditionOp.sge = false
allows_pointers _ = true

unfoldable pub is_equality : ConditionOp → Bool
is_equality ConditionOp.eq = true
is_equality ConditionOp.ne = true
is_equality _ = false

unfoldable pub against : Extractor → Condition → Value → List Assertion
against x cond (imm v) =
    if not (v == 0)
    then type_constraint cond.left TypeGroup.number ∷ []
    else (if not (allows_pointers cond.op && cond.is64)
        then type_constraint cond.left TypeGroup.number ∷ compare_access x cond.left ∷ []
        else compare_access x cond.left ∷ [])
against x cond (reg r) =
    compare_access x cond.left
    ∷ compare_access x r
    ∷ (if not (is_equality cond.op)
        then type_constraint cond.left TypeGroup.ptr_or_num ∷ comparable cond.left r false ∷ []
        else comparable cond.left r false ∷ [])

unfoldable pub explicate : Extractor → Condition → List Assertion
explicate x cond = if x.is_privileged then [] else against x cond cond.right

unfoldable pub of_assume : Extractor → Assume → List Assertion
of_assume x a = if a.is_implicit then [] else explicate x a.cond

unfoldable pub of_jmp : Extractor → Option Condition → List Assertion
of_jmp x none = []
of_jmp x (some cond) = explicate x cond

-- What an unprivileged program may store: a number, or by 8 bytes what `ValidStore` allows.
unfoldable pub of_store : Reg → ℤ → Value → List Assertion
of_store base width (imm v) = []
of_store base width (reg r) =
    if eqb_ℤ width (pos 8) then valid_store base r ∷ [] else type_constraint r TypeGroup.number ∷ []

-- `offset < -512 || offset + static_cast<int>(width) > 0`, of the width after the cast. The sum is
-- one of two ints, which wraps around here; the source leaves its overflow undefined.
unfoldable pub leaves_stack_frame : ℤ → ℤ → Bool
leaves_stack_frame offset width =
    ltb_ℤ offset (negsuc (subprogram_stack_size - 1))
    || ltb_ℤ (pos 0) (Number.static_cast (sint 32) (offset +ℤ width))

abbrev pub access_kind : Bool → AccessType
access_kind is_load = if is_load then read else write

-- `Imm{gsl::narrow<uint32_t>(width)}`
unfoldable pub of_mem : Extractor → Mem → Result (List Assertion)
of_mem x m = do
  width ← Number.narrow (uint 32) m.access.width
  let base = m.access.basereg
  let access =
      make_valid_access x base m.access.offset (imm (nat_abs width)) false (access_kind m.is_load)
  ok (
      if base == r10_stack_pointer
      then (if leaves_stack_frame m.access.offset (Number.static_cast (sint 32) width)
          then access ∷ []
          else [])
      else type_constraint base TypeGroup.pointer
        ∷ access
        ∷ (if not x.is_privileged && not m.is_load then of_store base width m.value else []))

-- `Imm{static_cast<uint32_t>(width)}`
unfoldable pub of_atomic : Extractor → Atomic → List Assertion
of_atomic x a =
    type_constraint a.valreg TypeGroup.number
    ∷ type_constraint a.access.basereg TypeGroup.pointer
    ∷ make_valid_access x a.access.basereg a.access.offset
        (imm (nat_abs (Number.static_cast (uint 32) a.access.width))) false AccessType.compare
    ∷ []

-- The register operand, if the value is one.
abbrev pub operand : Value → Option Reg
operand (imm v) = none
operand (reg r) = some r

abbrev with_operand : Value → List Assertion → (Reg → List Assertion) → List Assertion
with_operand (imm v) absent present = absent
with_operand (reg r) absent present = present r

abbrev is_number : Reg → Assertion
is_number r = type_constraint r TypeGroup.number

abbrev is_ptr_or_num : Reg → Assertion
is_ptr_or_num r = type_constraint r TypeGroup.ptr_or_num

-- The arms of the switch for a division or remainder.
abbrev of_division : Reg → Value → Bool → List Assertion
of_division dst v is_signed =
    with_operand v (is_number dst ∷ []) (λ src. is_number dst ∷ valid_divisor src is_signed ∷ [])

unfoldable pub of_bin_op : BinOp → Reg → Value → Bool → List Assertion
of_bin_op BinOp.mov dst v is64 =
    with_operand v [] (λ src. if not is64 then is_number src ∷ [] else [])
of_bin_op BinOp.movsx8 dst v is64 = with_operand v [] (λ src. is_number src ∷ [])
of_bin_op BinOp.movsx16 dst v is64 = with_operand v [] (λ src. is_number src ∷ [])
of_bin_op BinOp.movsx32 dst v is64 = with_operand v [] (λ src. is_number src ∷ [])
of_bin_op BinOp.add dst v is64 =
    with_operand v (is_ptr_or_num dst ∷ [])
      λ src. is_ptr_or_num dst ∷ is_ptr_or_num src ∷ addable src dst ∷ addable dst src ∷ []
of_bin_op BinOp.sub dst v is64 =
    with_operand v (is_ptr_or_num dst ∷ [])
      (λ src. is_ptr_or_num dst ∷ comparable dst src true ∷ [])
of_bin_op BinOp.udiv dst v is64 = of_division dst v false
of_bin_op BinOp.umod dst v is64 = of_division dst v false
of_bin_op BinOp.sdiv dst v is64 = of_division dst v true
of_bin_op BinOp.smod dst v is64 = of_division dst v true
of_bin_op _ dst v is64 =
    with_operand v (is_number dst ∷ []) (λ src. is_number dst ∷ is_number src ∷ [])

unfoldable pub of_bin : Bin → List Assertion
of_bin b = of_bin_op b.op b.dst b.v b.is64

-- The source dereferences `current_label` without a test, which is undefined where there is none.
unfoldable pub of_exit : Option Label → Result (List Assertion)
of_exit none = err no_value
of_exit (some l) = ok (
    if is_empty l.stack_frame_prefix
    then type_constraint r0_return_value TypeGroup.number ∷ []
    else [])

-- `get_assertions`
unfoldable pub get_assertions : Extractor → Instruction → Result (List Assertion)
get_assertions x (Instruction.undefined opcode) = ok []
get_assertions x (Instruction.bin b) = ok (of_bin b)
get_assertions x (Instruction.un u) = ok (type_constraint u.dst TypeGroup.number ∷ [])
get_assertions x (Instruction.load_map_fd l) = ok []
get_assertions x (Instruction.call c) = of_call x c
get_assertions x (Instruction.call_local c) = ok []
get_assertions x (Instruction.callx func) =
    ok (type_constraint func TypeGroup.number ∷ func_constraint func ∷ [])
get_assertions x (Instruction.exit prefix) = of_exit x.current_label
get_assertions x (Instruction.jmp j) = ok (of_jmp x j.cond)
get_assertions x (Instruction.mem m) = of_mem x m
get_assertions x (Instruction.packet p) = ok (zero_offset_ctx 6 false)
get_assertions x (Instruction.atomic a) = ok (of_atomic x a)
get_assertions x (Instruction.assume a) = ok (of_assume x a)
get_assertions x (Instruction.increment_loop_counter name) = ok (bounded_loop_count name ∷ [])
get_assertions x (Instruction.load_map_address l) = ok []
