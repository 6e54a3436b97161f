-- ===== src/Analyzer/Sound.antt =====
-- The whole analysis: `run` of src/fwd_analyzer.cpp, and what a result without an error says of the
-- program's executions.
use prevail.Prelude.{
  ◌≡◌, refl, sym, ap, ◌∙◌, Bool, true, false, not, ◌&&◌, ◌⊎◌, inl, inr, Bool-cases, Option, none,
  some, [], ◌∷◌, if◌then◌else◌, arith,
}
use prevail.Prelude.Result.{ok, IfOk, IfOk-bind, IfOk-value, IfOk-map}
use prevail.Cfg.Label.{Label, same_label}
use prevail.Cfg.Order.{LabelVec, find}
use prevail.Cfg.Order.Laws.{same_label_self}
use prevail.Cfg.Graph.{entry, labels}
use prevail.Cfg.Wto.{WtoPartition, vertex, cons}
use prevail.Ir.Program.{Program, instruction_at}
use prevail.Analyzer.{
  Domain, InvariantMapPair, Analysis, pair_at, set_pair, set_pre, with_pre, get_pre,
  present_or_missing, join_all_prevs,
}
use prevail.Analyzer.Visits.{visit_label, visit_node, start, bottoms, counted}
use prevail.Analyzer.Semantics.{
  Semantics, Parent, Reaches, begin, move, Covered, in_partition, AllOrdered,
}
use prevail.Analyzer.Pairs.{Marks, set_pair-SetTo, set-Marks, ok-injective}
use prevail.Analyzer.Nodes.{transform_to_post-Transformed}
use prevail.Analyzer.Flows.{
  Flow, enter, inside, Flow-member, Visited, Covered-moved, Covered-Post, Transformed-Covered,
  false-not-true,
}
use prevail.Analyzer.Components.{labels_of}
use mathlib.Core.Path.{subst}

-- The order starts with the entry, and what the entry leads to stands in it, in order.
pub record IsOrder (prog : Program) (wto : WtoPartition) : Type 0 where
  pub rest : WtoPartition
  pub wto-cons : wto ≡ cons (vertex entry) rest
  pub rest-AllOrdered : AllOrdered prog rest
  pub entry_apart : in_partition entry rest ≡ false
  pub from_entry : (v : Label) → Parent prog entry v → in_partition v rest ≡ true
  pub from_member :
      (u v : Label) → in_partition u rest ≡ true → Parent prog u v → in_partition v rest ≡ true

module _ (d : Domain) (sem : Semantics d) (prog : Program) where
  -- The states that the analysis starts from: with loop counters, if it checks for termination.
  abbrev pub Initial : Bool → WtoPartition → d.Value → sem.State → Type 0
  Initial check wto inv x = (v : d.Value) × (counted d check wto inv ≡ ok v) × sem.Denotes v x

  -- The visit of the entry.
  pub record Entered (v : d.Value) (s : Analysis d.Value) : Type 0 where
    pub not_skipped : s.skip ≡ false
    pub marked : Marks s
    pub covers : s.failed ≡ false → (x : sem.State) → sem.Denotes v x → Covered d sem prog s entry x

  entry_node :
      (v : d.Value) (s : Analysis d.Value) (p : InvariantMapPair d.Value)
      → pair_at s entry ≡ ok p
      → p.pre ≡ v
      → s.skip ≡ false
      → Marks s
      → IfOk (Entered v) (visit_node d prog s entry)
  unfolding visit_node join_all_prevs get_pre set_pre
  entry_node v s p e same skips m =
      rw (same_label_self entry, e)
        (IfOk-bind (set_pair s entry (with_pre p.pre)) λ s1 e1.
          let t = IfOk-value e1 (set_pair-SetTo s entry (with_pre p.pre)) in
          let m1 = set-Marks t (λ q. refl) m in
          IfOk-map (transform_to_post-Transformed d sem prog entry p.pre s1) λ s2 r.
            let (q, eq, kept) = r.pre-kept _ t.pair_at-after in
            record {
              not_skipped = r.skip-same ∙ t.skip-same ∙ skips;
              marked = r.marks m1;
              covers = λ calm x k.
                  Transformed-Covered d sem prog r q eq kept m1 calm x
                    (subst (λ w. sem.Denotes w x) (sym same) k);
            })

  pub entry_label :
      (v : d.Value) (s : Analysis d.Value) (p : InvariantMapPair d.Value)
      → pair_at s entry ≡ ok p
      → p.pre ≡ v
      → Marks s
      → IfOk (Entered v) (visit_label d prog s entry)
  unfolding visit_label pair_at
  entry_label v s p e same m =
      let off : (s.skip && not (same_label entry entry)) ≡ false =
        rw (same_label_self entry) (and_false s.skip) in
      at_flag _ off
    where
      and_false : (b : Bool) → (b && false) ≡ false
      and_false true = refl
      and_false false = refl

      at_flag :
          (b : Bool)
          → b ≡ false
          → IfOk (Entered v) (
              if b
              then ok (record s { skip = b })
              else visit_node d prog (record s { skip = b }) entry)
      at_flag true h = false-not-true refl h
      at_flag false h = entry_node v (record s { skip = false }) p e same refl m

  bottoms-clean :
      (ls : LabelVec) (l : Label) (p : InvariantMapPair d.Value)
      → find l (bottoms d ls) ≡ some p
      → p.error ≡ true
      → ⊥
  unfolding find
  bottoms-clean [] l p e h = cc
  bottoms-clean (x ∷ ls) l p e h = elim (Bool-cases (same_label l x)) [
    | inl here ↦ ground arith
    | inr other ↦ bottoms-clean ls l p (ground arith) h
  ]

  pub start-Marks : Marks (start d prog)
  unfolding start pair_at
  start-Marks l p e h = absurd (clean (find l (bottoms d (labels prog.cfg))) refl e)
    where
      clean :
          (r : Option (InvariantMapPair d.Value))
          → find l (bottoms d (labels prog.cfg)) ≡ r
          → present_or_missing r ≡ ok p
          → ⊥
      clean none eq k = cc
      clean (some q) eq k = bottoms-clean (labels prog.cfg) l p (eq ∙ ap some (ok-injective k)) h

  -- Every state that reaches a node flows through the order.
  module _ (wto : WtoPartition) (o : IsOrder prog wto) (v : d.Value) (s s' : Analysis d.Value)
      (a : Entered v s) (b : Visited d sem prog (labels_of o.rest) s s') (calm : s'.failed ≡ false)
      (Start : sem.State → Type 0) (started : (x : sem.State) → Start x → sem.Denotes v x) where
    at_entry : (x : sem.State) → Start x → Covered d sem prog s entry x
    at_entry x k = a.covers (b.quiet calm) x (started x k)

    flows :
        (u : Label) (x : sem.State)
        → Reaches d sem prog Start u x
        → ((u ≡ entry) × Start x) ⊎ Flow d sem prog (labels_of o.rest) s u x
    flows _ x (begin _ k) = inl (refl, k)
    flows u y (move p _ i x _ r e t edge) = elim (flows p x r) [
      | inl (here, k) ↦
          let edge' = subst (λ l. Parent prog l u) here edge in
          inr (
            enter entry _ y o.entry_apart (o.from_entry u edge') edge' (
              Covered-Post d sem prog (at_entry x k)
                (subst (λ l. instruction_at prog l ≡ ok i) here e) t))
      | inr f ↦
          inr (inside p _ i x y f e t edge (o.from_member p u (Flow-member d sem prog f) edge))
    ]

    pub all-Covered :
        (u : Label) (x : sem.State) → Reaches d sem prog Start u x → Covered d sem prog s' u x
    all-Covered u x r = elim (flows u x r) [
      | inl (here, k) ↦
          subst (λ l. Covered d sem prog s' l x) (sym here)
            (Covered-moved d sem prog (b.frame entry o.entry_apart) (at_entry x k))
      | inr f ↦ b.covers calm u x f
    ]
