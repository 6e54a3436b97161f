-- ===== src/Ir/CfgBuilder.antt =====
-- The conversion of an instruction sequence to a graph, of src/ir/cfg_builder.cpp, and `to_string` of a
-- label, of src/printing.cpp. `InvalidControlFlow` is an error without its message.

pub mod Mirrored
pub mod Inline
pub mod Sequence
use prevail.Prelude.{
  ℕ, zero, suc, ◌+◌, ◌/◌, ◌%◌, ltb, Bool, true, false, not, ◌&&◌, ◌||◌, Option, none, some, List,
  [], ◌∷◌, ◌++◌, if◌then◌else◌,
}
use prevail.Prelude.Int.{ℤ, pos, negsuc, eqb_ℤ}
use prevail.Prelude.Result.{Result, ok, err, ◌>>=◌, ◌>>◌, invalid_control_flow}
use prevail.Cfg.Label.{Label, Text, label, same_label, stack_frame_delimiter, is_empty}
use prevail.Cfg.Graph.{entry, exit, has_node}
use prevail.Ir.Syntax.{Condition, ConditionOp, Instruction, Jmp}
use prevail.Ir.Marshal.Sequence.{InstructionSeq}
use prevail.Ir.Program.{Program, empty_program, insert, add_child, insert_jump}

-- The decimal digits of a number, with fuel for as many digits as the number's value.
unfoldable pub digits : ℕ → ℕ → Text → Text
digits zero n rest = rest
digits (suc fuel) n rest =
    let text = (b'0' + n % 10) ∷ rest in
    let more = digits fuel (n / 10) text in if ltb n 10 then text else more

unfoldable pub decimal : ℤ → Text
decimal (pos n) = digits (suc n) n []
decimal (negsuc n) = b'-' ∷ digits (suc (suc n)) (suc n) []

abbrev entry_text : Text
entry_text = b'e' ∷ b'n' ∷ b't' ∷ b'r' ∷ b'y' ∷ []

abbrev exit_text : Text
exit_text = b'e' ∷ b'x' ∷ b'i' ∷ b't' ∷ []

unfoldable pub to_string : Label → Text
to_string l =
    if same_label l entry
    then entry_text
    else if same_label l exit
    then exit_text
    else (if is_empty l.stack_frame_prefix
        then []
        else l.stack_frame_prefix ++ stack_frame_delimiter ∷ [])
      ++ (decimal l.from
          ++ ((if eqb_ℤ l.to (negsuc 0) then [] else b':' ∷ decimal l.to)
              ++ (if is_empty l.special_label
                  then []
                  else b' ' ∷ b'(' ∷ (l.special_label ++ b')' ∷ []))))

-- The inverse of a comparison, and of a condition.
unfoldable pub reverse_op : ConditionOp → ConditionOp
reverse_op ConditionOp.eq = ConditionOp.ne
reverse_op ConditionOp.ne = ConditionOp.eq
reverse_op ConditionOp.ge = ConditionOp.lt
reverse_op ConditionOp.lt = ConditionOp.ge
reverse_op ConditionOp.sge = ConditionOp.slt
reverse_op ConditionOp.slt = ConditionOp.sge
reverse_op ConditionOp.le = ConditionOp.gt
reverse_op ConditionOp.gt = ConditionOp.le
reverse_op ConditionOp.sle = ConditionOp.sgt
reverse_op ConditionOp.sgt = ConditionOp.sle
reverse_op ConditionOp.set = ConditionOp.nset
reverse_op ConditionOp.nset = ConditionOp.set

unfoldable pub reverse : Condition → Condition
reverse c = record c { op = reverse_op c.op }

abbrev pub is_some_condition : Option Condition → Bool
is_some_condition none = false
is_some_condition (some c) = true

unfoldable pub has_fall : Instruction → Bool
has_fall (Instruction.exit prefix) = false
has_fall (Instruction.jmp j) = is_some_condition j.cond
has_fall i = true

abbrev pub assume : Condition → Instruction
assume c = Instruction.assume (record { cond = c; is_implicit = true })

abbrev pub require_flow : Bool → Result {0} Unit
require_flow t = if t then ok tt else err invalid_control_flow

-- The edges of a jump: to its target, or to both sides through nodes that assume the condition.
unfoldable pub connect_jump : Program → Label → Label → Label → Option Condition → Result Program
connect_jump p l fallthrough target none = add_child p l target
connect_jump p l fallthrough target (some c) =
    if same_label target fallthrough then add_child p l fallthrough else (do
      require_flow (has_node p.cfg target)
      p1 ← insert_jump p l target (assume c)
      insert_jump p1 l fallthrough (assume (reverse c)))

-- The edges of an instruction that is neither undefined nor a jump.
unfoldable pub connect : Program → Label → Label → Instruction → Result Program
connect p l fallthrough (Instruction.undefined n) = ok p
connect p l fallthrough (Instruction.jmp j) = connect_jump p l fallthrough j.target j.cond
connect p l fallthrough (Instruction.exit prefix) = add_child p l exit
connect p l fallthrough i = add_child p l fallthrough

abbrev pub is_undefined : Instruction → Bool
is_undefined (Instruction.undefined n) = true
is_undefined i = false

-- The second loop of `instruction_seq_to_cfg`.
unfoldable pub connect_all : Bool → Program → InstructionSeq → Result Program
connect_all must_have_exit p [] = ok p
connect_all must_have_exit p ((l, i) ∷ []) = do
  require_flow (is_undefined i || not (has_fall i && must_have_exit))
  connect p l exit i
connect_all must_have_exit p ((l, i) ∷ (next, j) ∷ rest) = do
  p1 ← connect p l next i
  connect_all must_have_exit p1 ((next, j) ∷ rest)

-- The first loop.
unfoldable pub insert_all : Program → InstructionSeq → Result Program
insert_all p [] = ok p
insert_all p ((l, i) ∷ rest) = do
  p1 ← (if is_undefined i then ok p else insert p l i)
  insert_all p1 rest

-- The edge from the entry to the first instruction, and the edges of all.
unfoldable pub connect_sequence : Bool → Program → InstructionSeq → Result Program
connect_sequence must_have_exit p [] = err invalid_control_flow
connect_sequence must_have_exit p ((l, i) ∷ rest) = do
  p1 ← add_child p entry l
  connect_all must_have_exit p1 ((l, i) ∷ rest)

-- The graph of a sequence before the inlining of local calls.
unfoldable pub first_pass : InstructionSeq → Bool → Result Program
first_pass insts must_have_exit = do
  p ← insert_all empty_program insts
  connect_sequence must_have_exit p insts
