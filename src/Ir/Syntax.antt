-- ===== src/Ir/Syntax.antt =====
-- The instructions and assertions of src/ir/syntax.hpp. A `std::variant` is a data type, a struct a
-- record; a register or immediate is its number, and a signed field an integer.
use prevail.Prelude.{ℕ, Bool, Option, List}
use prevail.Prelude.Int.{ℤ}
use prevail.Cfg.Label.{Label, Text}

abbrev pub Imm : Type 0
Imm = ℕ

abbrev pub Reg : Type 0
Reg = ℕ

pub data Value : Type 0 where
  imm : Imm → Value
  reg : Reg → Value

pub data BinOp : Type 0 where
  mov add sub mul udiv umod or and lsh rsh arsh xor sdiv smod movsx8 movsx16 movsx32 : BinOp

pub record Bin : Type 0 where
  pub op : BinOp
  pub dst : Reg
  pub v : Value
  pub is64 : Bool
  pub lddw : Bool

pub data UnOp : Type 0 where
  be16 be32 be64 le16 le32 le64 swap16 swap32 swap64 neg : UnOp

pub record Un : Type 0 where
  pub op : UnOp
  pub dst : Reg
  pub is64 : Bool

pub record LoadMapFd : Type 0 where
  pub dst : Reg
  pub mapfd : ℤ

pub record LoadMapAddress : Type 0 where
  pub dst : Reg
  pub mapfd : ℤ
  pub offset : ℤ

pub data ConditionOp : Type 0 where
  eq ne set nset lt le gt ge slt sle sgt sge : ConditionOp

pub record Condition : Type 0 where
  pub op : ConditionOp
  pub left : Reg
  pub right : Value
  pub is64 : Bool

pub record Jmp : Type 0 where
  pub cond : Option Condition
  pub target : Label

pub data ArgSingleKind : Type 0 where
  map_fd map_fd_programs ptr_to_map_key ptr_to_map_value : ArgSingleKind
  ptr_to_ctx ptr_to_stack anything : ArgSingleKind

pub record ArgSingle : Type 0 where
  pub kind : ArgSingleKind
  pub or_null : Bool
  pub reg : Reg

pub data ArgPairKind : Type 0 where
  ptr_to_readable_mem ptr_to_writable_mem : ArgPairKind

pub record ArgPair : Type 0 where
  pub kind : ArgPairKind
  pub or_null : Bool
  pub mem : Reg
  pub size : Reg
  pub can_be_zero : Bool

pub record Call : Type 0 where
  pub func : ℤ
  pub name : Text
  pub is_map_lookup : Bool
  pub reallocate_packet : Bool
  pub singles : List ArgSingle
  pub pairs : List ArgPair
  pub stack_frame_prefix : Text

pub record CallLocal : Type 0 where
  pub target : Label
  pub stack_frame_prefix : Text

pub record Deref : Type 0 where
  pub width : ℤ
  pub basereg : Reg
  pub offset : ℤ

pub record Mem : Type 0 where
  pub access : Deref
  pub value : Value
  pub is_load : Bool

pub record Packet : Type 0 where
  pub width : ℤ
  pub offset : ℤ
  pub regoffset : Option Reg

pub data AtomicOp : Type 0 where
  add or and xor xchg cmpxchg : AtomicOp

pub record Atomic : Type 0 where
  pub op : AtomicOp
  pub fetch : Bool
  pub access : Deref
  pub valreg : Reg

pub record Assume : Type 0 where
  pub cond : Condition
  pub is_implicit : Bool

pub data Instruction : Type 0 where
  undefined : ℤ → Instruction
  bin : Bin → Instruction
  un : Un → Instruction
  load_map_fd : LoadMapFd → Instruction
  call : Call → Instruction
  call_local : CallLocal → Instruction
  callx : Reg → Instruction
  exit : Text → Instruction
  jmp : Jmp → Instruction
  mem : Mem → Instruction
  packet : Packet → Instruction
  atomic : Atomic → Instruction
  assume : Assume → Instruction
  increment_loop_counter : Label → Instruction
  load_map_address : LoadMapAddress → Instruction

-- `TypeGroup` of src/crab/type_encoding.hpp.
pub data TypeGroup : Type 0 where
  number map_fd ctx ctx_or_num packet stack stack_or_num shared : TypeGroup
  map_fd_programs mem mem_or_num pointer ptr_or_num stack_or_packet singleton_ptr : TypeGroup

pub data AccessType : Type 0 where
  compare read write : AccessType

pub record ValidAccess : Type 0 where
  pub call_stack_depth : ℕ
  pub reg : Reg
  pub offset : ℤ
  pub width : Value
  pub or_null : Bool
  pub access_type : AccessType

-- The fields of the small assertions are the arguments of their constructors, in order.
pub data Assertion : Type 0 where
  comparable : (r1 r2 : Reg) (or_r2_is_number : Bool) → Assertion
  addable : (ptr num : Reg) → Assertion
  valid_divisor : Reg → (is_signed : Bool) → Assertion
  valid_access : ValidAccess → Assertion
  valid_store : (mem val : Reg) → Assertion
  valid_size : Reg → (can_be_zero : Bool) → Assertion
  valid_map_key_value : (access_reg map_fd_reg : Reg) (key : Bool) → Assertion
  valid_call : (func : ℤ) (stack_frame_prefix : Text) → Assertion
  type_constraint : Reg → TypeGroup → Assertion
  func_constraint : Reg → Assertion
  zero_ctx_offset : Reg → (or_null : Bool) → Assertion
  bounded_loop_count : Label → Assertion
