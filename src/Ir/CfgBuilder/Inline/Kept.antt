-- ===== src/Ir/CfgBuilder/Inline/Kept.antt =====
-- The graph of `instruction_seq_to_cfg` of src/ir/cfg_builder.cpp after the inlining of local calls.
use prevail.Prelude.{
  ℕ, zero, suc, ◌+◌, ltb, sym, ◌∙◌, Bool, true, false, Option, none, some, [], ◌∷◌, if◌then◌else◌,
  arith,
}
use prevail.Prelude.Result.{
  Result, IfOk, yields, throws, IfOk-bind, IfOk-bind_bind, IfOk-if, IfOk-flow,
}
use prevail.Cfg.Label.{Label, Text, same_label, same_text, count_delimiters}
use prevail.Cfg.Order.{LabelVec, contains}
use prevail.Cfg.Graph.{
  Cfg, entry, exit, has_node, get_child, get_node, parents_of, children_of, change, without_child,
  without_parent,
}
use prevail.Cfg.Graph
use prevail.Cfg.Graph.Edges.{without_child-Adjacency, without_parent-Adjacency}
use prevail.Ir.Marshal.Sequence.{InstructionSeq}
use prevail.Ir.Program.{Program, with_cfg, instruction_at, remove_child}
use prevail.Ir.CfgBuilder.{to_string}
use prevail.Ir.CfgBuilder.Mirrored.{
  IsMirrored, IsLinked, represents, add_child-IsLinked, insert-IsLinked, first_pass-IsMirrored,
}
use prevail.Ir.CfgBuilder.Inline.{
  Walk, copy_of, cloned, link_parents, push, visit_children, copy_node, next_round, walk, called,
  inline_one, inline_at, inline_nested, copy_all, add_cfg_nodes, inline_all, instruction_seq_to_cfg,
  max_call_stack_frames,
}

unlinked :
    (g : Cfg) (a b : Label)
    → IsMirrored g
    → IsMirrored (change b (without_parent a) (change a (without_child b) g))
unlinked g a b m =
    let r = without_parent-Adjacency (without_child-Adjacency (represents g m) a b) a b in
    record {
      mirrored = λ x y. r.parents x y ∙ sym (r.children x y);
      into_entry = λ x. r.children x entry ∙ ground (arith, m.into_entry x);
      out_of_exit = λ y. r.children exit y ∙ ground (arith, m.out_of_exit y);
    }

remove_child-IsLinked :
    (p : Program) (a b : Label) → IsLinked p → IfOk IsLinked (remove_child p a b)
unfolding remove_child Graph.remove_child with_cfg
remove_child-IsLinked p a b m =
    IfOk-bind_bind (get_node p.cfg a) _ _
      λ n e. IfOk-bind_bind (get_node p.cfg b) _ _ λ k f. yields (unlinked p.cfg a b m)

-- A walk whose program is linked.
abbrev IsWalk : Walk → Type 0
IsWalk w = IsLinked w.prog

link_parents-IsLinked :
    (prefix : Text) (new : Label) (prevs : LabelVec) (p : Program)
    → IsLinked p
    → IfOk IsLinked (link_parents prefix new prevs p)
unfolding link_parents
link_parents-IsLinked prefix new [] p m = yields m
link_parents-IsLinked prefix new (prev ∷ rest) p m =
    IfOk-flow
      (IfOk-if (has_node p.cfg (copy_of prefix prev))
        (λ h. add_child-IsLinked p (copy_of prefix prev) new m) (λ h. yields m))
      λ p1 m1. link_parents-IsLinked prefix new rest p1 m1

pushed :
    (macro_label next : Label) (w : Walk) (t : Bool)
    → IsWalk w
    → IsWalk (if t then w else push macro_label next w)
pushed macro_label next w true m = m
pushed macro_label next w false m = m

visit_children-IsWalk :
    (macro_label new exit_to : Label) (nexts : LabelVec) (w : Walk)
    → IsWalk w
    → IfOk IsWalk (visit_children macro_label new exit_to nexts w)
unfolding visit_children
visit_children-IsWalk macro_label new exit_to [] w m = yields m
visit_children-IsWalk macro_label new exit_to (next ∷ rest) w m =
    IfOk-flow
      (IfOk-if (same_label next exit)
        (λ h. IfOk-flow (add_child-IsLinked w.prog new exit_to m) (λ p m1. yields m1))
        (λ h. yields (pushed macro_label next w (contains w.seen_labels next) m)))
      λ w1 m1. visit_children-IsWalk macro_label new exit_to rest w1 m1

copy_node-IsWalk :
    (prefix : Text) (caller exit_to macro_label : Label) (w : Walk)
    → IsWalk w
    → IfOk IsWalk (copy_node prefix caller exit_to macro_label w)
unfolding copy_node
copy_node-IsWalk prefix caller exit_to macro_label w m =
    let new = copy_of prefix macro_label in
    IfOk-if (same_text prefix macro_label.stack_frame_prefix) (λ h. throws)
      λ h. IfOk-bind (instruction_at w.prog macro_label) λ i e.
        IfOk-flow (insert-IsLinked w.prog new (cloned prefix i) m) λ p1 m1.
          IfOk-flow (IfOk-if w.first (λ h. add_child-IsLinked p1 caller new m1) (λ h. yields m1))
            λ p2 m2. IfOk-bind (parents_of p2.cfg macro_label) λ prevs f.
              IfOk-flow (link_parents-IsLinked prefix new prevs p2 m2) λ p3 m3.
                IfOk-bind (children_of p3.cfg macro_label) λ nexts g.
                  visit_children-IsWalk macro_label new exit_to nexts
                    (record w { prog = p3; first = false }) m3

next_round-IsWalk :
    (again : Walk → Result Walk)
    → ((w : Walk) → IsWalk w → IfOk IsWalk (again w))
    → (prefix : Text) (caller exit_to : Label) (w : Walk) (labels : LabelVec) → IsWalk w
    → IfOk IsWalk (next_round again prefix caller exit_to w labels)
unfolding next_round
next_round-IsWalk again kept prefix caller exit_to w [] m = yields m
next_round-IsWalk again kept prefix caller exit_to w (macro_label ∷ rest) m =
    IfOk-flow
      (copy_node-IsWalk prefix caller exit_to macro_label (record w { macro_labels = rest }) m) kept

walk-IsWalk :
    (fuel : ℕ) (prefix : Text) (caller exit_to : Label) (w : Walk)
    → IsWalk w
    → IfOk IsWalk (walk fuel prefix caller exit_to w)
unfolding walk
walk-IsWalk zero prefix caller exit_to w m = throws
walk-IsWalk (suc fuel) prefix caller exit_to w m =
    next_round-IsWalk (λ w1. walk fuel prefix caller exit_to w1)
      (walk-IsWalk fuel prefix caller exit_to) prefix caller exit_to w w.macro_labels m

copy_all-IsWalk :
    (p : Program) (caller target : Label) → IsLinked p → IfOk IsWalk (copy_all p caller target)
unfolding copy_all
copy_all-IsWalk p caller target m = IfOk-bind (get_child p.cfg caller) λ exit_to e.
    IfOk-bind (instruction_at p caller) λ i f.
      IfOk-flow (walk-IsWalk _ (to_string caller) caller exit_to _ m)
        λ w m1. IfOk-flow (remove_child-IsLinked w.prog caller exit_to m1) λ p1 m2. yields m2

module _ (inline : Program → Label → Label → Result Program)
    (kept : (p : Program) (l target : Label) → IsLinked p → IfOk IsLinked (inline p l target)) where
  inline_at-IsLinked :
      (prefix : Text) (l : Label) (o : Option Label) (p : Program)
      → IsLinked p
      → IfOk IsLinked (inline_at inline prefix l o p)
  unfolding inline_at
  inline_at-IsLinked prefix l none p m = yields m
  inline_at-IsLinked prefix l (some target) p m =
      IfOk-if (ltb (count_delimiters prefix + 2) max_call_stack_frames) (λ h. kept p l target m)
        λ h. throws

  inline_nested-IsLinked :
      (prefix : Text) (labels : LabelVec) (p : Program)
      → IsLinked p
      → IfOk IsLinked (inline_nested inline prefix labels p)
  unfolding inline_nested
  inline_nested-IsLinked prefix [] p m = yields m
  inline_nested-IsLinked prefix (macro_label ∷ rest) p m =
      IfOk-bind (instruction_at p (copy_of prefix macro_label)) λ i e.
        IfOk-flow (inline_at-IsLinked prefix (copy_of prefix macro_label) (called i) p m)
          λ p1 m1. inline_nested-IsLinked prefix rest p1 m1

add_cfg_nodes-IsLinked :
    (fuel : ℕ) (p : Program) (caller target : Label)
    → IsLinked p
    → IfOk IsLinked (add_cfg_nodes fuel p caller target)
unfolding add_cfg_nodes
add_cfg_nodes-IsLinked zero p caller target m = throws
add_cfg_nodes-IsLinked (suc fuel) p caller target m =
    IfOk-flow (copy_all-IsWalk p caller target m) λ w m1.
      inline_nested-IsLinked (add_cfg_nodes fuel) (add_cfg_nodes-IsLinked fuel) (to_string caller)
        w.seen_labels w.prog m1

inline_one-IsLinked :
    (p : Program) (l : Label) (o : Option Label) → IsLinked p → IfOk IsLinked (inline_one p l o)
unfolding inline_one
inline_one-IsLinked p l none m = yields m
inline_one-IsLinked p l (some target) m = add_cfg_nodes-IsLinked max_call_stack_frames p l target m

inline_all-IsLinked :
    (insts : InstructionSeq) (p : Program) → IsLinked p → IfOk IsLinked (inline_all insts p)
unfolding inline_all
inline_all-IsLinked [] p m = yields m
inline_all-IsLinked ((l, i) ∷ rest) p m =
    IfOk-flow (inline_one-IsLinked p l (called i) m) λ p1 m1. inline_all-IsLinked rest p1 m1

-- Whatever the sequence of instructions, if its conversion to a graph, with the inlining of local
-- calls, returns a program, then in its graph a node is a child of another exactly where that one
-- is its parent, the entry is no child and the exit has none.
pub instruction_seq_to_cfg-IsMirrored :
    (insts : InstructionSeq) (must_have_exit : Bool)
    → IfOk (λ p. IsMirrored p.cfg) (instruction_seq_to_cfg insts must_have_exit)
unfolding instruction_seq_to_cfg
instruction_seq_to_cfg-IsMirrored insts t =
    IfOk-flow (first_pass-IsMirrored insts t) λ p m. inline_all-IsLinked insts p m
