-- ===== src/Tests/Flow.antt =====
-- The graphs of a program with a conditional jump, with a node after its first, and of programs with a
-- local call.
use prevail.Prelude.{Bool, true, false, ◌≡◌, refl, none, some, [], ◌∷◌}
use prevail.Prelude.Int.{ℤ, pos, negsuc}
use prevail.Prelude.Result.{Result, ok, err, IfOk, IfOk-value, Returns, label_exists}
use prevail.Cfg.Label.{Label, label, same_label, make_jump}
use prevail.Cfg.Order.{find, modify, emplace, insert, erase, contains, compare_label}
use prevail.Cfg.Graph.{
  Adjacent, Cfg, entry, exit, has_node, change, get_child, children_of, parents_of, get_node,
}
use prevail.Cfg.Graph
use prevail.Cfg.Graph.Edges.{Represents, Relation, child_in}
use prevail.Ir.Syntax.{Instruction, Condition, ConditionOp, imm}
use prevail.Ir.Marshal.Sequence.{InstructionSeq}
use prevail.Ir.Program.{
  Program, empty_program, insert_after, set_assertions, insert_jump, add_child, with_cfg,
  instruction_at, remove_child,
}
use prevail.Ir.Program
use prevail.Ir.Program.Edits.{with_node, between, insert_after-Represents}
use prevail.Ir.CfgBuilder.{
  first_pass, insert_all, connect_sequence, connect_all, connect, connect_jump, has_fall, reverse,
  reverse_op, to_string, decimal, digits,
}
use prevail.Prelude.Fuel.{Fueled}
use prevail.Ir.CfgBuilder.Inline.{
  link_parents, visit_children, copy_node, next_round, walk, inline_at, inline_nested, copy_all,
  add_cfg_nodes, inline_one, inline_all, instruction_seq_to_cfg,
}
use prevail.Cfg.Wto.{WtoPartition, nil, loop_heads}
use prevail.Ir.Assertions.{get_assertions, of_exit, of_jmp}
use prevail.Ir.CfgBuilder.Sequence.{from_sequence, annotate, insert_counters}
use prevail.Ir.CfgBuilder.Sequence.Annotated.{IsAnnotated, from_sequence-IsAnnotated}
use prevail.Ir.CfgBuilder.Inline.Kept.{instruction_seq_to_cfg-IsMirrored}
use prevail.Ir.CfgBuilder.Inline.Ends.{instruction_seq_to_cfg-Fueled}
use prevail.Ir.CfgBuilder.Mirrored.{IsMirrored, represents, first_pass-IsMirrored}

abbrev at_index : ℤ → Label
at_index i = label i (negsuc 0) []

abbrev zero_test : Condition
zero_test = record { op = ConditionOp.eq; left = 1; right = imm 0; is64 = true }

abbrev branch : InstructionSeq
branch =
    (
      at_index (pos 0),
      Instruction.jmp (record { cond = some zero_test; target = at_index (pos 2) }),
    )
    ∷ (at_index (pos 1), Instruction.load_map_fd (record { dst = 1; mapfd = pos 7 }))
    ∷ (at_index (pos 2), Instruction.exit [])
    ∷ []

abbrev to_two : Label
to_two = make_jump (at_index (pos 0)) (at_index (pos 2))

abbrev to_one : Label
to_one = make_jump (at_index (pos 0)) (at_index (pos 1))

-- The program that a call returns.
abbrev returned_by : Result Program → Program
returned_by (ok p) = p
returned_by (err e) = empty_program

abbrev built : Program
built = returned_by (first_pass branch true)

branch-built : first_pass branch true ≡ ok built
unfolding first_pass insert_all connect_sequence connect_all connect connect_jump has_fall reverse
    reverse_op add_child insert_jump Program.insert with_cfg Graph.add_child has_node change find
    modify emplace insert compare_label same_label make_jump
branch-built = refl

abbrev built_edges : Relation
built_edges x y = child_in (find x built.cfg.neighbours) y

abbrev before_exit : Label
before_exit = at_index (pos 3)

abbrev start_node : Adjacent
start_node = record { parents = entry ∷ []; children = to_one ∷ to_two ∷ [] }

start_node-found : find (at_index (pos 0)) built.cfg.neighbours ≡ some start_node
unfolding first_pass insert_all connect_sequence connect_all connect connect_jump has_fall reverse
    reverse_op add_child insert_jump Program.insert with_cfg Graph.add_child has_node change find
    modify emplace insert compare_label same_label make_jump
start_node-found = refl

built-IsMirrored : IsMirrored built.cfg
built-IsMirrored = IfOk-value branch-built (first_pass-IsMirrored branch true)

before_exit-new : has_node built.cfg before_exit ≡ false
unfolding first_pass insert_all connect_sequence connect_all connect connect_jump has_fall reverse
    reverse_op add_child insert_jump Program.insert with_cfg Graph.add_child has_node change find
    modify emplace insert compare_label same_label make_jump
before_exit-new = refl

insert_after-Represents_example :
    Returns
      (λ q.
        Represents q.cfg
          (with_node before_exit (has_node built.cfg))
          (between (at_index (pos 0)) before_exit (to_one ∷ to_two ∷ []) built_edges))
      (insert_after built (at_index (pos 0)) before_exit (Instruction.undefined (pos 0)))
unfolding same_label
insert_after-Represents_example =
    insert_after-Represents built (at_index (pos 0)) before_exit (Instruction.undefined (pos 0))
      start_node (represents built.cfg built-IsMirrored) start_node-found before_exit-new refl refl
      refl built-IsMirrored.into_entry

abbrev call_two : Instruction
call_two = Instruction.call_local (record { target = at_index (pos 2); stack_frame_prefix = [] })

-- A call of a subprogram of a jump and an exit.
abbrev calling : InstructionSeq
calling =
    (at_index (pos 0), call_two)
    ∷ (at_index (pos 1), Instruction.exit [])
    ∷ (at_index (pos 2), Instruction.jmp (record { cond = none; target = at_index (pos 3) }))
    ∷ (at_index (pos 3), Instruction.exit [])
    ∷ []

-- A call of a subprogram that reaches its exit by a fallthrough and by a backward jump.
abbrev calling_back : InstructionSeq
calling_back =
    (at_index (pos 0), call_two)
    ∷ (at_index (pos 1), Instruction.exit [])
    ∷ (
      at_index (pos 2),
      Instruction.jmp (record { cond = some zero_test; target = at_index (pos 4) }),
    )
    ∷ (at_index (pos 3), Instruction.exit [])
    ∷ (at_index (pos 4), Instruction.jmp (record { cond = none; target = at_index (pos 3) }))
    ∷ []

abbrev is_ok : Result Program → Bool
is_ok (ok p) = true
is_ok (err e) = false

calling-built : is_ok (instruction_seq_to_cfg calling true) ≡ true
unfolding first_pass insert_all connect_sequence connect_all connect connect_jump has_fall reverse
    reverse_op add_child insert_jump Program.insert with_cfg Graph.add_child has_node change find
    modify emplace insert compare_label same_label make_jump instruction_seq_to_cfg inline_all
    inline_one add_cfg_nodes copy_all inline_nested inline_at walk next_round copy_node
    visit_children link_parents to_string decimal digits get_child children_of parents_of get_node
    instruction_at remove_child Graph.remove_child erase contains
calling-built = refl

-- The exit is copied twice.
calling_back-refused : instruction_seq_to_cfg calling_back true ≡ err label_exists
unfolding first_pass insert_all connect_sequence connect_all connect connect_jump has_fall reverse
    reverse_op add_child insert_jump Program.insert with_cfg Graph.add_child has_node change find
    modify emplace insert compare_label same_label make_jump instruction_seq_to_cfg inline_all
    inline_one add_cfg_nodes copy_all inline_nested inline_at walk next_round copy_node
    visit_children link_parents to_string decimal digits get_child children_of parents_of get_node
    instruction_at remove_child Graph.remove_child erase contains
calling_back-refused = refl

instruction_seq_to_cfg-IsMirrored_example :
    IfOk (λ p. IsMirrored p.cfg) (instruction_seq_to_cfg calling true)
instruction_seq_to_cfg-IsMirrored_example = instruction_seq_to_cfg-IsMirrored calling true

instruction_seq_to_cfg-Fueled_example : Fueled (instruction_seq_to_cfg calling_back true)
instruction_seq_to_cfg-Fueled_example = instruction_seq_to_cfg-Fueled calling_back true

-- An order in which no node is in a loop, which the acyclic graph of `calling` has.
abbrev no_loops : Cfg → WtoPartition
no_loops g = nil

calling-annotated : is_ok (from_sequence no_loops false true true calling) ≡ true
unfolding first_pass insert_all connect_sequence connect_all connect connect_jump has_fall reverse
    reverse_op add_child insert_jump Program.insert with_cfg Graph.add_child has_node change find
    modify emplace insert compare_label same_label make_jump instruction_seq_to_cfg inline_all
    inline_one add_cfg_nodes copy_all inline_nested inline_at walk next_round copy_node
    visit_children link_parents to_string decimal digits get_child children_of parents_of get_node
    instruction_at remove_child Graph.remove_child erase contains from_sequence annotate
    insert_counters set_assertions loop_heads get_assertions of_exit of_jmp
calling-annotated = refl

from_sequence-IsAnnotated_example :
    IfOk
      (λ p. (l : Label) → has_node p.cfg l ≡ true → IsAnnotated false p l)
      (from_sequence no_loops false true true calling)
from_sequence-IsAnnotated_example = from_sequence-IsAnnotated no_loops false true true calling
