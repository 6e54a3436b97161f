-- ===== src/Ir/CfgBuilder/Inline/Rounds.antt =====
-- The rounds of the walk of `add_cfg_nodes` of src/ir/cfg_builder.cpp: each copies another node, so that as
-- many as the graph has nodes are enough.
use prevail.Prelude.{
  ℕ, ◌<◌, ◌≡◌, refl, sym, ap, ◌∙◌, Bool, true, false, not, ◌&&◌, inl, inr, Bool-cases, Option, none,
  some, [], ◌∷◌, if◌then◌else◌, arith,
}
use prevail.Prelude.Result.{
  ok, ◌>>=◌, IfOk, yields, throws, IfOk-bind, IfOk-then, IfOk-if, IfOk-flow, IfOk-map,
}
use prevail.Cfg.Label.{Label, Text, same_label, same_text}
use prevail.Cfg.Order.{LabelVec, contains, compare_label, find, modify, emplace, keys}
use prevail.Cfg.Order
use prevail.Cfg.Order.Laws.{contains-insert, same_text_iff, same_label_iff, same_label_self}
use prevail.Cfg.Graph.{
  Adjacent, Cfg, entry, exit, has_node, is_some, found, get_node, labels, size, change, with_child,
  with_parent, require, present, parents_of, children_of, get_child, no_neighbours,
}
use prevail.Cfg.Graph
use prevail.Ir.Syntax.{Instruction}
use prevail.Ir.Program.{Program, with_cfg, instruction_at, insert, add_child}
use prevail.Ir.CfgBuilder.Inline.{
  Walk, copy_of, cloned, link_parents, push, visit_children, copy_node,
}
use prevail.Ir.CfgBuilder.Inline.Count.{
  count, count_lt, count-insert, keys-modify, keys-emplace, has_node_iff,
}

-- A label whose copy is missing.
abbrev pub lacks_copy : Text → LabelVec → Label → Bool
lacks_copy prefix s l =
    not (same_text prefix l.stack_frame_prefix) && not (contains s (copy_of prefix l))

abbrev pub uncopied : Text → LabelVec → ℕ
uncopied prefix s = count (lacks_copy prefix s) s

-- The nodes of a program.
abbrev pub nodes : Program → LabelVec
nodes p = labels p.cfg

abbrev SameNodes : Program → Program → Type 0
SameNodes p q = nodes q ≡ nodes p

add_child-labels : (g : Cfg) (a b : Label) → IfOk (λ h. labels h ≡ labels g) (Graph.add_child g a b)
unfolding Graph.add_child change
add_child-labels g a b = IfOk-then (require (not (same_label b entry))) (
    IfOk-then (require (not (same_label a exit))) (
      IfOk-then (present g a) (
        IfOk-then (present g b) (
          yields (
            keys-modify b (with_parent a) (modify a (with_child b) g.neighbours)
            ∙ keys-modify a (with_child b) g.neighbours)))))

add_child-SameNodes : (p : Program) (a b : Label) → IfOk (SameNodes p) (add_child p a b)
unfolding add_child with_cfg
add_child-SameNodes p a b = IfOk-flow (add_child-labels p.cfg a b) λ g h. yields h

-- A node that is inserted was none.
abbrev OneMore : Program → Label → Program → Type 0
OneMore p l q = (contains (nodes p) l ≡ false) × (nodes q ≡ Order.insert l (nodes p))

insert-OneMore : (p : Program) (l : Label) (i : Instruction) → IfOk (OneMore p l) (insert p l i)
unfolding insert has_node
insert-OneMore p l i =
    IfOk-if (has_node p.cfg l) (λ h. throws)
      λ h.
        yields
          (sym (has_node_iff p.cfg.neighbours l) ∙ h, keys-emplace l no_neighbours p.cfg.neighbours)

link_parents-SameNodes :
    (prefix : Text) (new : Label) (prevs : LabelVec) (p : Program)
    → IfOk (SameNodes p) (link_parents prefix new prevs p)
unfolding link_parents
link_parents-SameNodes prefix new [] p = yields refl
link_parents-SameNodes prefix new (prev ∷ rest) p =
    IfOk-flow
      (IfOk-if {P = SameNodes p} (has_node p.cfg (copy_of prefix prev))
        (λ h. add_child-SameNodes p (copy_of prefix prev) new) (λ h. yields refl))
      λ p1 e. IfOk-map (link_parents-SameNodes prefix new rest p1) λ q f. f ∙ e

visit_children-SameNodes :
    (macro_label new exit_to : Label) (nexts : LabelVec) (w : Walk)
    → IfOk (λ v. SameNodes w.prog v.prog) (visit_children macro_label new exit_to nexts w)
unfolding visit_children
visit_children-SameNodes macro_label new exit_to [] w = yields refl
visit_children-SameNodes macro_label new exit_to (next ∷ rest) w =
    IfOk-flow
      (IfOk-if {P = λ v. SameNodes w.prog v.prog} (same_label next exit)
        (λ h. IfOk-flow (add_child-SameNodes w.prog new exit_to) (λ p e. yields e))
        (λ h. yields (pushed (contains w.seen_labels next))))
      λ w1 e. IfOk-map (visit_children-SameNodes macro_label new exit_to rest w1) λ v f. f ∙ e
  where
    pushed : (t : Bool) → SameNodes w.prog (if t then w else push macro_label next w).prog
    pushed true = refl
    pushed false = refl

parents_of-known : (g : Cfg) (l : Label) → IfOk (λ s. contains (labels g) l ≡ true) (parents_of g l)
unfolding parents_of get_node
parents_of-known g l = held (find l g.neighbours) refl
  where
    held :
        (o : Option Adjacent)
        → find l g.neighbours ≡ o
        → IfOk (λ s. contains (labels g) l ≡ true) (do n ← found o; ok n.parents)
    held none e = throws
    held (some n) e = yields (sym (has_node_iff g.neighbours l) ∙ ap is_some e)

same_text_self : (a : Text) → same_text a a ≡ true
same_text_self a = (same_text_iff a a).1 refl

-- The copy of a node that had none.
module _ (prefix : Text) (s : LabelVec) (m : Label)
    (apart : same_text prefix m.stack_frame_prefix ≡ false)
    (new : contains s (copy_of prefix m) ≡ false)
    (known : contains (Order.insert (copy_of prefix m) s) m ≡ true) where
  not_copy : same_label m (copy_of prefix m) ≡ false
  not_copy = elim (Bool-cases (same_label m (copy_of prefix m))) [
    | inl e ↦
        let q = (same_label_iff m (copy_of prefix m)).0 e in
        cc (apart, ap (λ l. same_text prefix l.stack_frame_prefix) q, same_text_self prefix)
    | inr e ↦ e
  ]

  copy-lt : uncopied prefix (Order.insert (copy_of prefix m) s) < uncopied prefix s
  copy-lt =
      let t = lacks_copy prefix (Order.insert (copy_of prefix m) s) in
      let grown = contains-insert (copy_of prefix m) s in
      let itself : t (copy_of prefix m) ≡ false = ground (arith, same_text_self prefix) in
      let fewer : (x : Label) → t x ≡ true → lacks_copy prefix s x ≡ true =
        λ x h. ground (arith, grown (copy_of prefix x)) in
      let copied : t m ≡ false =
        ground (arith, grown (copy_of prefix m), same_label_self (copy_of prefix m)) in
      let below =
        count_lt t (lacks_copy prefix s) fewer s m (ground (arith, grown m, not_copy)) copied
          (ground arith) in
      rw (count-insert t (copy_of prefix m) s itself) below

-- A round copies a node that had no copy.
pub copy_node-lt :
    (prefix : Text) (caller exit_to m : Label) (w : Walk)
    → IfOk
        (λ v. uncopied prefix (nodes v.prog) < uncopied prefix (nodes w.prog))
        (copy_node prefix caller exit_to m w)
unfolding copy_node
copy_node-lt prefix caller exit_to m w =
    let new = copy_of prefix m in
    IfOk-if (same_text prefix m.stack_frame_prefix) (λ h. throws)
      λ apart. IfOk-bind (instruction_at w.prog m) λ i e.
        IfOk-flow (insert-OneMore w.prog new (cloned prefix i)) λ p1 one.
          IfOk-flow
            (IfOk-if {P = SameNodes p1} w.first (λ h. add_child-SameNodes p1 caller new)
              (λ h. yields refl))
            λ p2 e2. IfOk-flow (parents_of-known p2.cfg m) λ prevs k.
              IfOk-flow (link_parents-SameNodes prefix new prevs p2) λ p3 e3.
                IfOk-bind (children_of p3.cfg m) λ nexts g.
                  IfOk-map
                    (visit_children-SameNodes m new exit_to nexts
                      (record w { prog = p3; first = false }))
                    λ v e4.
                      let all = e4 ∙ e3 ∙ e2 ∙ one.1 in
                      let known : contains (Order.insert new (nodes w.prog)) m ≡ true =
                        sym (ap (λ s. contains s m) (e2 ∙ one.1)) ∙ k in
                      rw all (copy-lt prefix (nodes w.prog) m apart (one.0) known)
