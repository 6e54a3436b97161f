-- ===== src/Ir/CfgBuilder/Inline/Ends.antt =====
-- The conversion of a sequence to a graph, of src/ir/cfg_builder.cpp, does not run out of fuel.
use prevail.Prelude.{
  ℕ, zero, suc, ◌+◌, ltb, ◌<◌, ◌≤◌, refl, Bool, false, inl, inr, Bool-cases, Option, none, some, [],
  ◌∷◌, arith,
}
use prevail.Prelude.Result.{Result}
use prevail.Prelude.Fuel.{Fueled, returned, failed, bind-Fueled, flow-Fueled, if-Fueled}
use prevail.Cfg.Label.{Label, Text, same_label, same_text, count_delimiters}
use prevail.Cfg.Order.{LabelVec}
use prevail.Cfg.Graph.{exit, has_node, size}
use prevail.Ir.Marshal.Sequence.{InstructionSeq}
use prevail.Ir.Program.{Program, empty_program}
use prevail.Ir.CfgBuilder.{to_string, first_pass}
use prevail.Ir.CfgBuilder.Inline.{
  Walk, copy_of, cloned, link_parents, visit_children, copy_node, next_round, walk, called,
  inline_at, inline_nested, copy_all, add_cfg_nodes, inline_one, inline_all, instruction_seq_to_cfg,
  max_call_stack_frames,
}
use prevail.Ir.CfgBuilder.Inline.Rounds.{uncopied, lacks_copy, nodes, copy_node-lt}
use prevail.Ir.CfgBuilder.Inline.Count.{count_le_length}
use prevail.Ir.CfgBuilder.Inline.Depth.{to_string-nonempty, to_string-delimiters}
use prevail.Ir.CfgBuilder.Inline.Edges.{
  add_child-Fueled, remove_child-Fueled, insert-Fueled, instruction-Fueled, parents-Fueled,
  children-Fueled, child-Fueled, insert_all-Fueled, connect_sequence-Fueled,
}

link_parents-Fueled :
    (prefix : Text) (new : Label) (prevs : LabelVec) (p : Program)
    → Fueled (link_parents prefix new prevs p)
unfolding link_parents
link_parents-Fueled prefix new [] p = returned
link_parents-Fueled prefix new (prev ∷ rest) p =
    bind-Fueled
      (if-Fueled (has_node p.cfg (copy_of prefix prev)) _ _
        (add_child-Fueled p (copy_of prefix prev) new) returned)
      λ p1. link_parents-Fueled prefix new rest p1

visit_children-Fueled :
    (macro_label new exit_to : Label) (nexts : LabelVec) (w : Walk)
    → Fueled (visit_children macro_label new exit_to nexts w)
unfolding visit_children
visit_children-Fueled macro_label new exit_to [] w = returned
visit_children-Fueled macro_label new exit_to (next ∷ rest) w =
    bind-Fueled
      (if-Fueled (same_label next exit) _ _
        (bind-Fueled (add_child-Fueled w.prog new exit_to) λ p. returned) returned)
      λ w1. visit_children-Fueled macro_label new exit_to rest w1

copy_node-Fueled :
    (prefix : Text) (caller exit_to m : Label) (w : Walk)
    → Fueled (copy_node prefix caller exit_to m w)
unfolding copy_node
copy_node-Fueled prefix caller exit_to m w =
    let new = copy_of prefix m in
    if-Fueled (same_text prefix m.stack_frame_prefix) _ _ (failed refl) (
      bind-Fueled (instruction-Fueled w.prog m) λ i.
        bind-Fueled (insert-Fueled w.prog new (cloned prefix i)) λ p1.
          bind-Fueled (if-Fueled w.first _ _ (add_child-Fueled p1 caller new) returned) λ p2.
            bind-Fueled (parents-Fueled p2.cfg m) λ prevs.
              bind-Fueled (link_parents-Fueled prefix new prevs p2) λ p3.
                bind-Fueled (children-Fueled p3.cfg m) λ nexts.
                  visit_children-Fueled m new exit_to nexts (record w { prog = p3; first = false }))

next_round-Fueled :
    (again : Walk → Result Walk) (prefix : Text) (caller exit_to : Label) (w : Walk)
    → ((v : Walk)
        → uncopied prefix (nodes v.prog) < uncopied prefix (nodes w.prog)
        → Fueled (again v))
    → (s : LabelVec) → Fueled (next_round again prefix caller exit_to w s)
unfolding next_round
next_round-Fueled again prefix caller exit_to w k [] = returned
next_round-Fueled again prefix caller exit_to w k (m ∷ rest) =
    flow-Fueled (copy_node-Fueled prefix caller exit_to m (record w { macro_labels = rest }))
      (copy_node-lt prefix caller exit_to m (record w { macro_labels = rest })) k

-- As many rounds as nodes without a copy, and one to see that no label waits.
walk-Fueled :
    (fuel : ℕ) (prefix : Text) (caller exit_to : Label) (w : Walk)
    → uncopied prefix (nodes w.prog) < fuel
    → Fueled (walk fuel prefix caller exit_to w)
unfolding walk
walk-Fueled zero prefix caller exit_to w h = absurd (omega (arith, h))
walk-Fueled (suc fuel) prefix caller exit_to w h =
    next_round-Fueled (λ v. walk fuel prefix caller exit_to v) prefix caller exit_to w
      (λ v k. walk-Fueled fuel prefix caller exit_to v (omega (arith, h, k))) w.macro_labels

copy_all-Fueled : (p : Program) (caller target : Label) → Fueled (copy_all p caller target)
unfolding copy_all
copy_all-Fueled p caller target =
    let prefix = to_string caller in
    bind-Fueled (child-Fueled p.cfg caller) λ exit_to.
      bind-Fueled (instruction-Fueled p caller) λ i.
        bind-Fueled
          (walk-Fueled (suc (size p.cfg)) prefix caller exit_to _
            (omega (arith, count_le_length (lacks_copy prefix (nodes p)) p.cfg.neighbours)))
          λ w. bind-Fueled (remove_child-Fueled w.prog caller exit_to) λ p1. returned

module _ (inline : Program → Label → Label → Result Program) (prefix : Text)
    (kept : (p : Program) (m target : Label)
      → count_delimiters prefix + 2 < max_call_stack_frames
      → Fueled (inline p (copy_of prefix m) target)) where
  inline_at-Fueled :
      (m : Label) (o : Option Label) (p : Program)
      → Fueled (inline_at inline prefix (copy_of prefix m) o p)
  unfolding inline_at
  inline_at-Fueled m none p = returned
  inline_at-Fueled m (some target) p =
      elim (Bool-cases (ltb (count_delimiters prefix + 2) max_call_stack_frames)) [
        | inl e ↦ rw e (kept p m target (ground (arith, e)))
        | inr e ↦ rw e (failed refl)
      ]

  inline_nested-Fueled : (s : LabelVec) (p : Program) → Fueled (inline_nested inline prefix s p)
  unfolding inline_nested
  inline_nested-Fueled [] p = returned
  inline_nested-Fueled (m ∷ rest) p =
      bind-Fueled (instruction-Fueled p (copy_of prefix m))
        λ i. bind-Fueled (inline_at-Fueled m (called i) p) λ p1. inline_nested-Fueled rest p1

-- The limit on frames bounds the depth: fuel for the frames that are left, and for one call.
add_cfg_nodes-Fueled :
    (fuel : ℕ) (p : Program) (caller target : Label)
    → 1 ≤ fuel
    → 7 ≤ fuel + count_delimiters (to_string caller)
    → Fueled (add_cfg_nodes fuel p caller target)
unfolding add_cfg_nodes
add_cfg_nodes-Fueled zero p caller target h k = absurd (omega (arith, h))
add_cfg_nodes-Fueled (suc fuel) p caller target h k =
    let prefix = to_string caller in
    bind-Fueled (copy_all-Fueled p caller target) λ w.
      inline_nested-Fueled (add_cfg_nodes fuel) prefix
        (λ q m t less.
          let deeper = to_string-delimiters prefix m (to_string-nonempty caller) in
          add_cfg_nodes-Fueled fuel q (copy_of prefix m) t (omega (arith, k, less))
            (omega (arith, k, less, deeper)))
        w.seen_labels w.prog

inline_one-Fueled : (p : Program) (l : Label) (o : Option Label) → Fueled (inline_one p l o)
unfolding inline_one
inline_one-Fueled p l none = returned
inline_one-Fueled p l (some target) =
    add_cfg_nodes-Fueled max_call_stack_frames p l target (omega arith) (omega arith)

inline_all-Fueled : (insts : InstructionSeq) (p : Program) → Fueled (inline_all insts p)
unfolding inline_all
inline_all-Fueled [] p = returned
inline_all-Fueled ((l, i) ∷ rest) p =
    bind-Fueled (inline_one-Fueled p l (called i)) λ p1. inline_all-Fueled rest p1

-- Whatever the sequence of instructions, its conversion to a graph, with the walk over the nodes
-- of each local call and the calls among them, never runs out of fuel: it returns or fails with
-- an error of the source.
pub instruction_seq_to_cfg-Fueled :
    (insts : InstructionSeq) (must_have_exit : Bool)
    → Fueled (instruction_seq_to_cfg insts must_have_exit)
unfolding instruction_seq_to_cfg first_pass
instruction_seq_to_cfg-Fueled insts t =
    bind-Fueled
      (bind-Fueled (insert_all-Fueled empty_program insts) λ p. connect_sequence-Fueled t p insts)
      λ p. inline_all-Fueled insts p
