-- ===== src/Analyzer/Components.antt =====
-- The visit of components in order.
use prevail.Prelude.{ℕ, ◌≡◌, refl, ap, ◌∙◌, Bool, false, not, ◌&&◌, if◌then◌else◌, arith}
use prevail.Prelude.Result.{
  Result, ok, ◌>>=◌, IfOk, yields, IfOk-bind, IfOk-value, IfOk-map, IfOk-if,
}
use prevail.Cfg.Label.{Label, same_label}
use prevail.Cfg.Order.Laws.{same_label_self}
use prevail.Cfg.Graph.{entry}
use prevail.Cfg.Wto.{CycleOrLabel, vertex, cycle, WtoPartition, nil, cons, head}
use prevail.Ir.Program.{Program}
use prevail.Analyzer.{Domain, Analysis}
use prevail.Analyzer.Visits.{
  visit, visit_members, visit_all, visit_label, visit_node, visit_cycle, is_vertex,
}
use prevail.Analyzer.Semantics.{Semantics, in_component, in_partition, IsOrdered, AllOrdered}
use prevail.Analyzer.Pairs.{Marks}
use prevail.Analyzer.Flows.{Flow-member, Visited, visit_node-Visited, then-Visited, false-not-true}
use prevail.Analyzer.Loops.{visit_loop-Visited}
use mathlib.Core.Path.{subst}

abbrev pub labels_of : WtoPartition → Label → Bool
labels_of cs l = in_partition l cs

is_vertex-false : (h : Label) (c : CycleOrLabel) → in_component h c ≡ false → is_vertex h c ≡ false
unfolding in_component
is_vertex-false h (vertex l) e = e
is_vertex-false h (cycle cs) e = refl

unskipped :
    {A : Type 0} {P : A → Type 0} (b : Bool) (x y : Result A)
    → b ≡ false
    → IfOk P y
    → IfOk P (if b then x else y)
unskipped b x y e h = IfOk-if b (λ k. false-not-true k e) (λ _. h)

apart-head :
    (h : Label) (c : CycleOrLabel) (cs : WtoPartition)
    → in_partition h (cons c cs) ≡ false
    → (in_component h c ≡ false) × (in_partition h cs ≡ false)
unfolding in_partition
apart-head h c cs e = ground arith

module _ (d : Domain) (sem : Semantics d) (prog : Program) (fuel : ℕ) (wto : WtoPartition) where
  visit_label-Visited :
      (l : Label) (s : Analysis d.Value)
      → IsOrdered prog (vertex l)
      → s.skip ≡ false
      → Marks s
      → IfOk (Visited d sem prog (same_label l) s) (visit_label d prog s l)
  unfolding visit_label IsOrdered
  visit_label-Visited l s (no_loop, n) skips m =
      let off : false ≡ (s.skip && not (same_label l entry)) = rw skips refl in
      let same : s ≡ record s { skip = s.skip && not (same_label l entry) } =
        ap (λ b. record s { skip = b }) (skips ∙ off) in
      subst
        (λ t.
          IfOk (Visited d sem prog (same_label l) s)
            (if t.skip then ok t else visit_node d prog t l))
        same (unskipped _ _ _ skips (visit_node-Visited d sem prog s l no_loop n skips m))

  nothing-Visited :
      (s : Analysis d.Value) → s.skip ≡ false → Marks s → Visited d sem prog (labels_of nil) s s
  unfolding in_partition
  nothing-Visited s skips m = record {
    not_skipped = skips;
    marked = m;
    quiet = λ q. q;
    frame = λ u k. refl;
    covers = λ q v x f. false-not-true (Flow-member d sem prog f) refl;
  }

  cons-Visited :
      (c : CycleOrLabel) (cs : WtoPartition) (s : Analysis d.Value)
      (first : Result (Analysis d.Value)) (then_rest : Analysis d.Value → Result (Analysis d.Value))
      → AllOrdered prog (cons c cs)
      → IfOk (Visited d sem prog (λ l. in_component l c) s) first
      → ((s1 : Analysis d.Value)
          → s1.skip ≡ false
          → Marks s1
          → IfOk (Visited d sem prog (labels_of cs) s1) (then_rest s1))
      → IfOk (Visited d sem prog (labels_of (cons c cs)) s) (first >>= then_rest)
  unfolding AllOrdered in_partition
  cons-Visited c cs s first then_rest (oc, ocs, apart, forward) a b = IfOk-bind first λ s1 e.
      let v1 = IfOk-value e a in
      IfOk-map (b s1 v1.not_skipped v1.marked)
        (λ s2 v2. then-Visited d sem prog apart forward v1 v2)

  mutual
    unfolding visit visit_members visit_cycle head in_component in_partition IsOrdered AllOrdered

    pub visit-Visited :
        (c : CycleOrLabel) (s : Analysis d.Value)
        → IsOrdered prog c
        → s.skip ≡ false
        → Marks s
        → IfOk (Visited d sem prog (λ l. in_component l c) s) (visit d fuel prog wto c s)
    visit-Visited (vertex l) s o skips m = visit_label-Visited l s o skips m
    visit-Visited (cycle nil) s o skips m = absurd o
    visit-Visited (cycle (cons (cycle c) cs)) s o skips m = absurd o
    visit-Visited (cycle (cons (vertex h) cs)) s (apart, n, o) skips m = unskipped _ _ _ skips (
        visit_loop-Visited d sem prog h (labels_of cs) s _ n apart
          (λ t st mt. rw (same_label_self h) (members-Visited h cs t apart o st mt)) fuel wto false
          skips m)

    pub members-Visited :
        (h : Label) (cs : WtoPartition) (s : Analysis d.Value)
        → in_partition h cs ≡ false
        → AllOrdered prog cs
        → s.skip ≡ false
        → Marks s
        → IfOk (Visited d sem prog (labels_of cs) s) (visit_members d fuel prog wto h cs s)
    members-Visited h nil s apart o skips m = yields (nothing-Visited s skips m)
    members-Visited h (cons c cs) s apart o skips m =
        let e = apart-head h c cs apart in
        rw (is_vertex-false h c e.0) (
          cons-Visited c cs s (visit d fuel prog wto c s)
            (λ t. visit_members d fuel prog wto h cs t) o (visit-Visited c s (o.0) skips m)
            (λ s1 sk m1. members-Visited h cs s1 e.1 (o.1) sk m1))

  pub visit_all-Visited :
      (cs : WtoPartition) (s : Analysis d.Value)
      → AllOrdered prog cs
      → s.skip ≡ false
      → Marks s
      → IfOk (Visited d sem prog (labels_of cs) s) (visit_all d fuel prog wto cs s)
  unfolding visit_all AllOrdered
  visit_all-Visited nil s o skips m = yields (nothing-Visited s skips m)
  visit_all-Visited (cons c cs) s o skips m =
      cons-Visited c cs s (visit d fuel prog wto c s) (λ t. visit_all d fuel prog wto cs t) o
        (visit-Visited c s (o.0) skips m) (λ s1 sk m1. visit_all-Visited cs s1 (o.1) sk m1)
