-- ===== src/Ir/CfgBuilder/Inline.antt =====
-- The inlining of local calls, `add_cfg_nodes` of src/ir/cfg_builder.cpp, and the whole of
-- `instruction_seq_to_cfg`.
pub mod Kept
pub mod Count
pub mod Rounds
pub mod Depth
pub mod Edges
pub mod Ends
use prevail.Prelude.{
  ℕ, zero, suc, ◌+◌, ltb, Bool, true, false, Option, none, some, List, [], ◌∷◌, if◌then◌else◌,
}
use prevail.Prelude.Result.{Result, ok, err, ◌>>=◌, invalid_control_flow, out_of_fuel}
use prevail.Cfg.Label.{Label, Text, label, same_label, same_text, count_delimiters}
use prevail.Cfg.Order.{LabelVec, contains, insert, modify}
use prevail.Cfg.Graph.{entry, exit, has_node, get_child, parents_of, children_of, size}
use prevail.Ir.Syntax.{Instruction}
use prevail.Ir.Marshal.Sequence.{InstructionSeq}
use prevail.Ir.Program.{Program, instruction_at, add_child, remove_child}
use prevail.Ir.Program
use prevail.Ir.CfgBuilder.{to_string, first_pass}

abbrev pub max_call_stack_frames : ℕ
max_call_stack_frames = 8

-- The labels that wait for their copy, and those that are marked.
pub record Walk : Type 0 where
  pub prog : Program
  pub macro_labels : LabelVec
  pub seen_labels : LabelVec
  pub first : Bool

abbrev pub copy_of : Text → Label → Label
copy_of prefix l = label l.from l.to prefix

abbrev pub cloned : Text → Instruction → Instruction
cloned prefix (Instruction.exit old) = Instruction.exit prefix
cloned prefix (Instruction.call c) = Instruction.call (record c { stack_frame_prefix = prefix })
cloned prefix i = i

-- The caller keeps the prefix of the frame.
abbrev pub framed : Text → Instruction → Instruction
framed prefix (Instruction.call_local c) =
    Instruction.call_local (record c { stack_frame_prefix = prefix })
framed prefix i = i

-- The edges from the copies of a node's parents, where they exist.
unfoldable pub link_parents : Text → Label → LabelVec → Program → Result Program
link_parents prefix new [] p = ok p
link_parents prefix new (prev ∷ rest) p = do
  p1 ←
      (if has_node p.cfg (copy_of prefix prev) then add_child p (copy_of prefix prev) new else ok p)
  link_parents prefix new rest p1

-- The source marks the node itself and not its child.
abbrev pub push : Label → Label → Walk → Walk
push macro_label next w = record w {
  macro_labels =
      if contains w.macro_labels next then w.macro_labels else insert next w.macro_labels;
  seen_labels = insert macro_label w.seen_labels;
}

unfoldable pub visit_children : Label → Label → Label → LabelVec → Walk → Result Walk
visit_children macro_label new exit_to [] w = ok w
visit_children macro_label new exit_to (next ∷ rest) w = do
  w1 ←
      (if same_label next exit
        then (do p ← add_child w.prog new exit_to; ok (record w { prog = p }))
        else ok (if contains w.seen_labels next then w else push macro_label next w))
  visit_children macro_label new exit_to rest w1

-- One round of the walk.
unfoldable pub copy_node : Text → Label → Label → Label → Walk → Result Walk
copy_node prefix caller exit_to macro_label w =
    let new = copy_of prefix macro_label in
    if same_text prefix macro_label.stack_frame_prefix then err invalid_control_flow else (do
      i ← instruction_at w.prog macro_label
      p1 ← Program.insert w.prog new (cloned prefix i)
      p2 ← (if w.first then add_child p1 caller new else ok p1)
      prevs ← parents_of p2.cfg macro_label
      p3 ← link_parents prefix new prevs p2
      nexts ← children_of p3.cfg macro_label
      visit_children macro_label new exit_to nexts (record w { prog = p3; first = false }))

-- The walk takes the first of the labels that wait; `again` is the walk that goes on.
unfoldable pub next_round :
    (Walk → Result Walk) → Text → Label → Label → Walk → LabelVec → Result Walk
next_round again prefix caller exit_to w [] = ok w
next_round again prefix caller exit_to w (macro_label ∷ rest) = do
  w1 ← copy_node prefix caller exit_to macro_label (record w { macro_labels = rest })
  again w1

unfoldable pub walk : ℕ → Text → Label → Label → Walk → Result Walk
walk zero prefix caller exit_to w = err out_of_fuel
walk (suc fuel) prefix caller exit_to w =
    next_round (λ w1. walk fuel prefix caller exit_to w1) prefix caller exit_to w w.macro_labels

abbrev pub called : Instruction → Option Label
called (Instruction.call_local c) = some c.target
called i = none

-- The calls among the copies: `inline` is the call of `add_cfg_nodes` itself.
module _ (inline : Program → Label → Label → Result Program) where
  unfoldable pub inline_at : Text → Label → Option Label → Program → Result Program
  inline_at prefix l none p = ok p
  inline_at prefix l (some target) p =
      if ltb (count_delimiters prefix + 2) max_call_stack_frames
      then inline p l target
      else err invalid_control_flow

  unfoldable pub inline_nested : Text → LabelVec → Program → Result Program
  inline_nested prefix [] p = ok p
  inline_nested prefix (macro_label ∷ rest) p = do
    i ← instruction_at p (copy_of prefix macro_label)
    p1 ← inline_at prefix (copy_of prefix macro_label) (called i) p
    inline_nested prefix rest p1

-- The copies of one call, without the calls among them.
unfoldable pub copy_all : Program → Label → Label → Result Walk
copy_all p caller target = do
  exit_to ← get_child p.cfg caller
  i ← instruction_at p caller
  w ← walk (suc (size p.cfg)) (to_string caller) caller exit_to (record {
    prog = record p { instructions = modify caller (framed (to_string caller)) p.instructions };
    macro_labels = target ∷ [];
    seen_labels = target ∷ [];
    first = true;
  })
  p1 ← remove_child w.prog caller exit_to
  ok (record w { prog = p1 })

unfoldable pub add_cfg_nodes : ℕ → Program → Label → Label → Result Program
add_cfg_nodes zero p caller target = err out_of_fuel
add_cfg_nodes (suc fuel) p caller target = do
  w ← copy_all p caller target
  inline_nested (add_cfg_nodes fuel) (to_string caller) w.seen_labels w.prog

-- The last loop of `instruction_seq_to_cfg`.
unfoldable pub inline_one : Program → Label → Option Label → Result Program
inline_one p l none = ok p
inline_one p l (some target) = add_cfg_nodes max_call_stack_frames p l target

unfoldable pub inline_all : InstructionSeq → Program → Result Program
inline_all [] p = ok p
inline_all ((l, i) ∷ rest) p = do p1 ← inline_one p l (called i); inline_all rest p1

unfoldable pub instruction_seq_to_cfg : InstructionSeq → Bool → Result Program
instruction_seq_to_cfg insts must_have_exit = do
  p ← first_pass insts must_have_exit
  inline_all insts p
