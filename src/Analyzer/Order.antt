-- ===== src/Analyzer/Order.antt =====
-- A test of a weak topological order: whether a program's edges lead back only to the heads of cycles.
use prevail.Prelude.{
  ◌≡◌, refl, sym, ap, ◌∙◌, Bool, true, false, not, ◌&&◌, ◌||◌, inl, inr, Bool-cases, Option, none,
  some, List, [], ◌∷◌, arith,
}
use prevail.Prelude.Result.{ok, ◌>>=◌}
use prevail.Cfg.Label.{Label, same_label}
use prevail.Cfg.Order.{LabelVec, contains, find}
use prevail.Cfg.Order.Laws.{same_label_iff, same_label_self}
use prevail.Cfg.Graph.{Adjacent, entry, parents_of, get_node, found}
use prevail.Cfg.Wto.{CycleOrLabel, vertex, cycle, WtoPartition, nil, cons}
use prevail.Ir.Program.{Program}
use prevail.Analyzer.Semantics.{Parent, in_component, in_partition, IsOrdered, AllOrdered}
use prevail.Analyzer.Pairs.{ok-injective}
use prevail.Analyzer.Flows.{false-not-true}
use prevail.Analyzer.Sound.{IsOrder}
use mathlib.Core.Path.{subst}

-- A test of all members.
unfoldable pub all_of : (Label → Bool) → LabelVec → Bool
all_of test [] = true
all_of test (x ∷ s) = test x && all_of test s

-- A test of all edges, as pairs of a parent and a child.
unfoldable pub all_edges : (Label → Label → Bool) → List (Label × Adjacent) → Bool
all_edges test [] = true
all_edges test ((v, n) ∷ m) = all_of (λ u. test u v) n.parents && all_edges test m

all_of-contains :
    (test : Label → Bool) (s : LabelVec) (u : Label)
    → all_of test s ≡ true
    → contains s u ≡ true
    → test u ≡ true
unfolding all_of contains
all_of-contains test [] u h k = false-not-true k refl
all_of-contains test (x ∷ s) u h k = elim (Bool-cases (same_label u x)) [
  | inl same ↦ ap test ((same_label_iff u x).0 same) ∙ head_true _ _ h
  | inr other ↦ all_of-contains test s u (tail_true _ _ h) (ground arith)
]
  where
    head_true : (a b : Bool) → (a && b) ≡ true → a ≡ true
    head_true a b e = ground arith

    tail_true : (a b : Bool) → (a && b) ≡ true → b ≡ true
    tail_true a b e = ground arith

both : (a b : Bool) → (a && b) ≡ true → (a ≡ true) × (b ≡ true)
both a b h = ground arith

all_edges-find :
    (test : Label → Label → Bool) (m : List (Label × Adjacent)) (u v : Label) (n : Adjacent)
    → all_edges test m ≡ true
    → find v m ≡ some n
    → contains n.parents u ≡ true
    → test u v ≡ true
unfolding all_edges find
all_edges-find test [] u v n h e c = cc
all_edges-find test ((k, w) ∷ m) u v n h e c = elim (Bool-cases (same_label v k)) [
  | inl same ↦
      let here : w ≡ n = ground arith in
      ap (test u) ((same_label_iff v k).0 same)
      ∙ all_of-contains (λ x. test x k) w.parents u ((both _ _ h).0)
          (subst (λ a. contains a.parents u ≡ true) (sym here) c)
  | inr other ↦ all_edges-find test m u v n ((both _ _ h).1) (ground arith) c
]

pub all_edges-Parent :
    (test : Label → Label → Bool) (prog : Program) (u v : Label)
    → all_edges test prog.cfg.neighbours ≡ true
    → Parent prog u v
    → test u v ≡ true
unfolding parents_of get_node
all_edges-Parent test prog u v h (ps, e, c) = node (find v prog.cfg.neighbours) refl e
  where
    node :
        (r : Option Adjacent)
        → find v prog.cfg.neighbours ≡ r
        → (do n ← found r; ok n.parents) ≡ ok ps
        → test u v ≡ true
    node none eq k = cc
    node (some n) eq k =
        all_edges-find test prog.cfg.neighbours u v n h eq
          (subst (λ s. contains s u ≡ true) (sym (ok-injective k)) c)

-- A test of all labels of a component, and of components.
unfoldable mutual
  pub all_in : (Label → Bool) → CycleOrLabel → Bool
  all_in test (vertex v) = test v
  all_in test (cycle cs) = all_among test cs

  pub all_among : (Label → Bool) → WtoPartition → Bool
  all_among test nil = true
  all_among test (cons c cs) = all_in test c && all_among test cs

mutual
  unfolding all_in all_among in_component in_partition

  all_in-member :
      (test : Label → Bool) (c : CycleOrLabel) (l : Label)
      → all_in test c ≡ true
      → in_component l c ≡ true
      → test l ≡ true
  all_in-member test (vertex v) l h k = ap test (sym ((same_label_iff v l).0 k)) ∙ h
  all_in-member test (cycle cs) l h k = all_among-member test cs l h k

  all_among-member :
      (test : Label → Bool) (cs : WtoPartition) (l : Label)
      → all_among test cs ≡ true
      → in_partition l cs ≡ true
      → test l ≡ true
  all_among-member test nil l h k = false-not-true k refl
  all_among-member test (cons c cs) l h k = elim (Bool-cases (in_component l c)) [
    | inl here ↦ all_in-member test c l ((both _ _ h).0) here
    | inr other ↦ all_among-member test cs l ((both _ _ h).1) (ground arith)
  ]

module _ (prog : Program) where
  abbrev pub no_edge : (Label → Label → Bool) → Bool
  no_edge test = all_edges (λ u v. not (test u v)) prog.cfg.neighbours

  unfoldable mutual
    pub is_ordered : CycleOrLabel → Bool
    is_ordered (vertex v) =
        no_edge (λ a b. same_label a v && same_label b v) && not (same_label v entry)
    is_ordered (cycle nil) = false
    is_ordered (cycle (cons (cycle c) cs)) = false
    is_ordered (cycle (cons (vertex h) cs)) =
        not (in_partition h cs) && (not (same_label h entry) && all_ordered cs)

    pub all_ordered : WtoPartition → Bool
    all_ordered nil = true
    all_ordered (cons c cs) =
        is_ordered c
        && (all_ordered cs
            && (all_in (λ l. not (in_partition l cs)) c
                && no_edge (λ u v. in_partition u cs && in_component v c)))

  no_edge-Parent :
      (test : Label → Label → Bool) (u v : Label)
      → no_edge test ≡ true
      → Parent prog u v
      → test u v ≡ false
  no_edge-Parent test u v h e =
      refuted (test u v) (all_edges-Parent (λ a b. not (test a b)) prog u v h e)
    where
      refuted : (b : Bool) → not b ≡ true → b ≡ false
      refuted b k = ground arith

  refuted : (b : Bool) → not b ≡ true → b ≡ false
  refuted b k = ground arith

  mutual
    unfolding is_ordered all_ordered IsOrdered AllOrdered

    is_ordered-IsOrdered : (c : CycleOrLabel) → is_ordered c ≡ true → IsOrdered prog c
    is_ordered-IsOrdered (vertex v) h =
        let b = both _ _ h in
        (
          λ e.
              false-not-true (rw (same_label_self v) refl)
                (no_edge-Parent (λ x y. same_label x v && same_label y v) v v b.0 e),
          refuted _ b.1,
        )
    is_ordered-IsOrdered (cycle nil) h = cc
    is_ordered-IsOrdered (cycle (cons (cycle c) cs)) h = cc
    is_ordered-IsOrdered (cycle (cons (vertex k) cs)) h =
        let b = both _ _ h in
        let c = both _ _ b.1 in (refuted _ b.0, refuted _ c.0, all_ordered-AllOrdered cs c.1)

    all_ordered-AllOrdered : (cs : WtoPartition) → all_ordered cs ≡ true → AllOrdered prog cs
    all_ordered-AllOrdered nil h = tt
    all_ordered-AllOrdered (cons c cs) h =
        let b = both _ _ h in
        let r = both _ _ b.1 in
        let q = both _ _ r.1 in
        (
          is_ordered-IsOrdered c b.0,
          all_ordered-AllOrdered cs r.0,
          λ l m. refuted _ (all_in-member (λ l. not (in_partition l cs)) c l q.0 m),
          λ u v mu mv e.
              false-not-true (rw (mu, mv) refl)
                (no_edge-Parent (λ x y. in_partition x cs && in_component y c) u v q.1 e),
        )

  unfoldable pub is_order : WtoPartition → Bool
  is_order nil = false
  is_order (cons (cycle c) rest) = false
  is_order (cons (vertex l) rest) =
      same_label l entry
      && (all_ordered rest
          && (not (in_partition entry rest)
              && all_edges
                  (λ u v. not (same_label u entry || in_partition u rest) || in_partition v rest)
                  prog.cfg.neighbours))

  -- An order that passes the test is one.
  pub is_order-IsOrder : (wto : WtoPartition) → is_order wto ≡ true → IsOrder prog wto
  unfolding is_order
  is_order-IsOrder nil h = cc
  is_order-IsOrder (cons (cycle c) rest) h = cc
  is_order-IsOrder (cons (vertex l) rest) h =
      let b = both _ _ h in
      let r = both _ _ b.1 in
      let q = both _ _ r.1 in
      let closed = λ (u v : Label) (e : Parent prog u v).
        all_edges-Parent
          (λ u v. not (same_label u entry || in_partition u rest) || in_partition v rest) prog u v
          q.1 e in
      record {
        rest = rest;
        wto-cons = ap (λ k. cons (vertex k) rest) ((same_label_iff l entry).0 b.0);
        rest-AllOrdered = all_ordered-AllOrdered rest r.0;
        entry_apart = refuted _ q.0;
        from_entry = λ v e. led _ _ (rw (same_label_self entry) refl) (closed entry v e);
        from_member = λ u v m e. led _ _ (rw m (or_true (same_label u entry))) (closed u v e);
      }
    where
      or_true : (a : Bool) → (a || true) ≡ true
      or_true a = ground arith

      led : (a b : Bool) → a ≡ true → (not a || b) ≡ true → b ≡ true
      led a b e k = ground arith
