-- ===== src/Ir/Program/Edits.antt =====
-- What the operations of `CfgBuilder` of src/ir/cfg_builder.cpp make of a graph.
use prevail.Prelude.{
  ◌≡◌, refl, sym, ap, ◌∙◌, Bool, true, false, not, ◌&&◌, ◌||◌, some, [], ◌∷◌, if◌then◌else◌, arith,
}
use prevail.Prelude.Result.{Returns, returns, Returns-bind, Returns-map}
use prevail.Cfg.Label.{Label, same_label, make_jump}
use prevail.Cfg.Order.{LabelVec, contains, find}
use prevail.Cfg.Order.Laws.{same_label_iff, same_label_self}
use prevail.Cfg.Graph.{
  Adjacent, Cfg, entry, exit, has_node, is_some, get_node, change, without_parent, without_children,
}
use prevail.Cfg.Graph.Edges.{
  Adjacency, Represents, Relation, with_edge, without_edge, childless-Adjacency, emplace-Adjacency,
  Adjacency-same, add_child-Represents, get_node-Returns, without_parent-Adjacency, child_in,
}
use prevail.Ir.Syntax.{Instruction}
use prevail.Ir.Program.{
  Program, with_cfg, add_child, insert, insert_jump, erase_parent, link_children, insert_after,
}

abbrev pub with_node : Label → (Label → Bool) → Label → Bool
with_node l V k = same_label k l || V k

add-Represents :
    {V : Label → Bool} {E : Relation} (p : Program) (a b : Label)
    → Represents p.cfg V E
    → V a ≡ true
    → V b ≡ true
    → same_label a exit ≡ false
    → same_label b entry ≡ false
    → Returns (λ q. Represents q.cfg V (with_edge a b E)) (add_child p a b)
unfolding add_child with_cfg
add-Represents p a b r va vb na nb =
    Returns-bind (add_child-Represents a b r va vb na nb) λ g h. returns h

insert-Represents :
    {V : Label → Bool} {E : Relation} (p : Program) (l : Label) (ins : Instruction)
    → Represents p.cfg V E
    → V l ≡ false
    → Returns (λ q. Represents q.cfg (with_node l V) E) (insert p l ins)
unfolding insert
insert-Represents p l ins r new = rw (r.nodes l, new) (returns (emplace-Adjacency r l new))

node_self : (V : Label → Bool) (l : Label) → with_node l V l ≡ true
node_self V l = rw (same_label_self l) refl

node_old : (V : Label → Bool) (l k : Label) → V k ≡ true → with_node l V k ≡ true
node_old V l k h = ground arith

-- A jump becomes a node of its own, between its source and its target.
pub insert_jump-Represents :
    {V : Label → Bool} {E : Relation} (p : Program) (from to : Label) (ins : Instruction)
    → Represents p.cfg V E
    → V from ≡ true
    → V to ≡ true
    → V (make_jump from to) ≡ false
    → same_label from exit ≡ false
    → same_label to entry ≡ false
    → same_label (make_jump from to) entry ≡ false
    → same_label (make_jump from to) exit ≡ false
    → Returns
        (λ q.
          Represents q.cfg
            (with_node (make_jump from to) V)
            (with_edge (make_jump from to) to (with_edge from (make_jump from to) E)))
        (insert_jump p from to ins)
unfolding insert_jump
insert_jump-Represents {V} p from to ins r vf vt new nf nt je jx =
    let j = make_jump from to in
    rw (r.nodes j, new)
      (Returns-bind (insert-Represents p j ins r new) λ p1 r1.
        Returns-bind (add-Represents p1 from j r1 (node_old V j from vf) (node_self V j) nf je)
          λ p2 r2. add-Represents p2 j to r2 (node_self V j) (node_old V j to vt) jx nt)

abbrev nonempty : LabelVec → Bool
nonempty [] = false
nonempty (x ∷ s) = true

erase_parent-Adjacency :
    {V : Label → Bool} {C : Relation} (prev : Label) (s : LabelVec) (P : Relation) (g : Cfg)
    → Adjacency g V C P
    → ((y : Label) → contains s y ≡ true → V y ≡ true)
    → Returns
        (λ g'. Adjacency g' V C (λ x y. P x y && not (same_label x prev && contains s y)))
        (erase_parent prev s g)
unfolding erase_parent contains
erase_parent-Adjacency prev [] P g r known =
    returns (Adjacency-same (λ l. refl) (λ x y. refl) (λ x y. ground arith) r)
erase_parent-Adjacency prev (next ∷ rest) P g r known =
    Returns-bind (get_node-Returns next r (known next (rw (same_label_self next) refl))) λ n e.
      Returns-map
        (erase_parent-Adjacency prev rest (without_edge prev next P)
          (change next (without_parent prev) g) (without_parent-Adjacency r prev next)
          (λ y h. known y (ground arith)))
        λ g' h. Adjacency-same (λ l. refl) (λ x y. refl) (λ x y. ground arith) h

-- The edges after `link_children`.
abbrev linked : Label → Label → LabelVec → Relation → Relation
linked prev new s E x y =
    (same_label x new && contains s y)
    || ((same_label x prev && same_label y new && nonempty s) || E x y)

link_children-Represents :
    {V : Label → Bool} (prev new : Label) (s : LabelVec) (E : Relation) (p : Program)
    → Represents p.cfg V E
    → V prev ≡ true
    → V new ≡ true
    → same_label prev exit ≡ false
    → same_label new exit ≡ false
    → same_label new entry ≡ false
    → ((y : Label) → contains s y ≡ true → (V y ≡ true) × (same_label y entry ≡ false))
    → Returns (λ q. Represents q.cfg V (linked prev new s E)) (link_children prev new s p)
unfolding link_children contains
link_children-Represents prev new [] E p r vp vn np nx ne known =
    returns (Adjacency-same (λ l. refl) (λ x y. ground arith) (λ x y. ground arith) r)
link_children-Represents prev new (next ∷ rest) E p r vp vn np nx ne known =
    let k = known next (rw (same_label_self next) refl) in
    Returns-bind (add-Represents p prev new r vp vn np ne) λ p1 r1.
      Returns-bind (add-Represents p1 new next r1 vn (k.0) nx (k.1)) λ p2 r2.
        Returns-map
          (link_children-Represents prev new rest (with_edge new next (with_edge prev new E)) p2 r2
            vp vn np nx ne (λ y h. known y (ground arith)))
          λ q h. Adjacency-same (λ l. refl) (λ x y. ground arith) (λ x y. ground arith) h

-- The nodes of an edge are nodes.
edge-nodes :
    {g : Cfg} {V : Label → Bool} {E : Relation}
    → Represents g V E
    → (x y : Label) → E x y ≡ true
    → (V x ≡ true) × (V y ≡ true)
unfolding has_node
edge-nodes r x y h = ground (arith, r.nodes x, r.nodes y, r.children x y, r.parents x y)

-- The edges after `insert_after`: the new node takes the children of the old one, which keeps it alone.
abbrev pub between : Label → Label → LabelVec → Relation → Relation
between prev new s E x y =
    if same_label x new
    then E prev y
    else if same_label x prev
    then same_label y new && nonempty s
    else E x y

-- The relations on the way: without the old node's children, and with the new node's.
module _ (E : Relation) (prev : Label) (s : LabelVec)
    (kids : (y : Label) → contains s y ≡ E prev y) where
  cut :
      (x y : Label)
      → (E x y && not (same_label x prev && contains s y)) ≡ (E x y && not (same_label x prev))
  cut x y = ground (arith, kids y, same_label_iff x prev)

  same_edges :
      (new : Label)
      → same_label prev new ≡ false
      → ((y : Label) → E new y ≡ false)
      → (x y : Label)
      → linked prev new s (λ u v. E u v && not (same_label u prev)) x y ≡ between prev new s E x y
  same_edges new apart childless x y = ground (
    arith,
    kids y,
    same_label_iff x prev,
    same_label_iff x new,
    same_label_iff prev new,
    childless y,
  )

-- No edge leaves what is not a node.
not-edge :
    {g : Cfg} {V : Label → Bool} {E : Relation}
    → Represents g V E
    → (x y : Label) → V x ≡ false
    → E x y ≡ false
unfolding has_node
not-edge r x y h = ground (arith, r.nodes x, r.children x y)

-- In a graph that a relation of edges describes, none of them into the entry, a new node that is
-- neither the entry nor the exit is inserted after an old one that is not the exit: it takes over
-- the old node's children, of which it becomes the only one if there are any, and all other edges
-- stay.
pub insert_after-Represents :
    {V : Label → Bool} {E : Relation} (p : Program) (prev new : Label) (ins : Instruction)
    (n : Adjacent)
    → Represents p.cfg V E
    → find prev p.cfg.neighbours ≡ some n
    → V new ≡ false
    → same_label prev exit ≡ false
    → same_label new exit ≡ false
    → same_label new entry ≡ false
    → ((x : Label) → E x entry ≡ false)
    → Returns
        (λ q. Represents q.cfg (with_node new V) (between prev new n.children E))
        (insert_after p prev new ins)
unfolding insert_after get_node with_cfg has_node
insert_after-Represents {V} {E} p prev new ins n r e vn px nx ne top =
    let vp : V prev ≡ true = sym (r.nodes prev) ∙ ap is_some e in
    let apart : same_label prev new ≡ false = ground (arith, vp, vn, same_label_iff prev new) in
    let kids : (y : Label) → contains n.children y ≡ E prev y =
      λ y. sym (ap (λ o. child_in o y) e) ∙ r.children prev y in
    let child_node = λ (y : Label) (h : contains n.children y ≡ true).
      (edge-nodes r prev y (sym (kids y) ∙ h)).1 in
    let all = same_edges E prev n.children kids new apart (λ y. not-edge r new y vn) in
    rw (apart, e)
      (Returns-bind
        (erase_parent-Adjacency prev n.children E (change prev without_children p.cfg)
          (childless-Adjacency r prev) child_node)
        λ g rg.
          Returns-bind
            (insert-Represents (with_cfg p g) new ins
              (Adjacency-same (λ l. refl) (λ x y. refl) (λ x y. cut E prev n.children kids x y) rg)
              vn)
            λ p1 r1.
              Returns-map
                (link_children-Represents prev new n.children _ p1 r1 (node_old V new prev vp)
                  (node_self V new) px nx ne
                  (λ y h. (
                    node_old V new y (child_node y h),
                    ground (arith, kids y, same_label_iff y entry, top prev),
                  )))
                λ q h. Adjacency-same (λ l. refl) all all h)
