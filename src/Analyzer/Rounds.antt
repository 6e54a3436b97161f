-- ===== src/Analyzer/Rounds.antt =====
-- One round over a cycle: its head, and a pass over its other components.
use prevail.Prelude.{◌≡◌, sym, ap, ◌∙◌, Bool, true, false, ◌||◌, inl, inr, Bool-cases, arith}
use prevail.Prelude.Result.{Result, ok, IfOk, IfOk-value}
use prevail.Cfg.Label.{Label, same_label}
use prevail.Cfg.Order.Laws.{same_label_iff}
use prevail.Cfg.Graph.{entry}
use prevail.Ir.Program.{Program}
use prevail.Analyzer.{
  Domain, InvariantMapPair, Analysis, pair_at, transform_to_post, join_all_prevs,
}
use prevail.Analyzer.Semantics.{Semantics, Post, Parent, Covered}
use prevail.Analyzer.Pairs.{Marks, Transformed}
use prevail.Analyzer.Nodes.{transform_to_post-Transformed, join_all_prevs-Denotes}
use prevail.Analyzer.Flows.{
  Flow, enter, inside, Flow-member, Visited, Post-moved, Covered-moved, Covered-Post, either_set,
  Transformed-Covered, false-not-true,
}
use mathlib.Core.Path.{subst}

module _ (d : Domain) (sem : Semantics d) (prog : Program) (h : Label) (B : Label → Bool)
    (s0 : Analysis d.Value) where
  abbrev pub whole_cycle : Label → Bool
  whole_cycle = either_set (same_label h) B

  -- A state of the analysis while the cycle is visited.
  pub record Ready (s : Analysis d.Value) : Type 0 where
    pub not_skipped : s.skip ≡ false
    pub marked : Marks s
    pub quiet : s.failed ≡ false → s0.failed ≡ false
    pub frame : (u : Label) → whole_cycle u ≡ false → pair_at s u ≡ pair_at s0 u

  -- The state before the head.
  abbrev pub HeadPre : d.Value → Analysis d.Value → Type 0
  HeadPre v s = (p : InvariantMapPair d.Value) × (pair_at s h ≡ ok p) × (p.pre ≡ v)

  -- After a round, the new state before the head holds what flows to it, if the old one holds of that
  -- what the new one does.
  pub record Round (v : d.Value) (s s2 : Analysis d.Value) (new_pre : d.Value) : Type 0 where
    pub ready : Ready s2
    pub head_pre : HeadPre v s2
    pub calm : s2.failed ≡ false → s.failed ≡ false
    pub closes :
        s2.failed ≡ false
        → ((x : sem.State)
            → Flow d sem prog whole_cycle s0 h x
            → sem.Denotes new_pre x
            → sem.Denotes v x)
        → (w : Label) (x : sem.State) → Flow d sem prog whole_cycle s0 w x
        → (same_label h w ≡ true → sem.Denotes new_pre x) × Covered d sem prog s2 w x

  module _ (pass : Analysis d.Value → Result (Analysis d.Value))
      (not_entry : same_label h entry ≡ false) (head_apart : B h ≡ false)
      (pass-Visited : (t : Analysis d.Value)
        → t.skip ≡ false
        → Marks t
        → IfOk (Visited d sem prog B t) (pass t)) where
    pub outside : (u : Label) → whole_cycle u ≡ false → same_label u h ≡ false
    outside u e = elim (Bool-cases (same_label u h)) [
      | inl same ↦
          let here : same_label h u ≡ true =
            (same_label_iff h u).1 (sym ((same_label_iff u h).0 same)) in
          false-not-true here (ground arith)
      | inr other ↦ other
    ]

    member_apart : (u : Label) → B u ≡ true → same_label u h ≡ false
    member_apart u e = elim (Bool-cases (same_label u h)) [
      | inl same ↦ false-not-true (sym (ap B ((same_label_iff u h).0 same)) ∙ e) head_apart
      | inr other ↦ other
    ]

    module _ (v : d.Value) (s s1 s2 : Analysis d.Value) (new_pre : d.Value) (r : Ready s)
        (t : Transformed d sem prog h v s s1) (w : Visited d sem prog B s1 s2)
        (joined : (u : Label) (x : sem.State)
          → Parent prog u h
          → Post d sem prog s2 u x
          → sem.Denotes new_pre x)
        (calm : s2.failed ≡ false)
        (close : (x : sem.State)
          → Flow d sem prog whole_cycle s0 h x
          → sem.Denotes new_pre x
          → sem.Denotes v x)
        (at_head : (x : sem.State) → sem.Denotes v x → Covered d sem prog s1 h x) where
      abbrev Parts : Label → sem.State → Type 0
      Parts u x =
          (same_label h u ≡ true → sem.Denotes new_pre x) × (B u ≡ true → Flow d sem prog B s1 u x)

      head_cover :
          (u : Label) (x : sem.State)
          → Flow d sem prog whole_cycle s0 u x
          → Parts u x
          → same_label h u ≡ true
          → Covered d sem prog s1 u x
      head_cover u x f g here =
          let same = (same_label_iff h u).0 here in
          subst (λ l. Covered d sem prog s1 l x) same
            (at_head x
              (close x (subst (λ l. Flow d sem prog whole_cycle s0 l x) (sym same) f) (g.0 here)))

      head_outside : (u : Label) → same_label h u ≡ true → B u ≡ false
      head_outside u here = sym (ap B ((same_label_iff h u).0 here)) ∙ head_apart

      cover :
          (u : Label) (x : sem.State)
          → Flow d sem prog whole_cycle s0 u x
          → Parts u x
          → Covered d sem prog s2 u x
      cover u x f g = elim (Bool-cases (same_label h u)) [
        | inl here ↦
            Covered-moved d sem prog (w.frame u (head_outside u here)) (head_cover u x f g here)
        | inr other ↦ w.covers calm u x (g.1 (rest (Flow-member d sem prog f) other))
      ]
        where
          rest : (same_label h u || B u) ≡ true → same_label h u ≡ false → B u ≡ true
          rest m n = ground arith

      parts : (u : Label) (x : sem.State) → Flow d sem prog whole_cycle s0 u x → Parts u x
      parts u x (enter p _ _ out into e post) = (
        λ here. joined p x (subst (λ l. Parent prog p l) (sym ((same_label_iff h u).0 here)) e) (
            Post-moved d sem prog s0 s2 p
              (w.frame p (ground arith) ∙ t.frame p (outside p out) ∙ r.frame p out) post),
        λ member.
            enter p _ x (ground arith) member e
              (Post-moved d sem prog s0 s1 p (t.frame p (outside p out) ∙ r.frame p out) post),
      )
      parts u y (inside p _ i x _ f e step edge into) =
          let g = parts p x f in
          (
            λ here.
                joined p y (subst (λ l. Parent prog p l) (sym ((same_label_iff h u).0 here)) edge)
                  (Covered-Post d sem prog (cover p x f g) e step),
            λ member. elim (Bool-cases (same_label h p)) [
              | inl first ↦
                  enter p _ y (head_outside p first) member edge
                    (Covered-Post d sem prog (head_cover p x f g first) e step)
              | inr other ↦
                  inside p _ i x y (g.1 (rest (Flow-member d sem prog f) other)) e step edge member
            ],
          )
        where
          rest : {p : Label} → (same_label h p || B p) ≡ true → same_label h p ≡ false → B p ≡ true
          rest m n = ground arith

    pub round :
        (v : d.Value) (s s1 s2 : Analysis d.Value) (new_pre : d.Value)
        → Ready s
        → HeadPre v s
        → transform_to_post d prog s h v ≡ ok s1
        → pass s1 ≡ ok s2
        → join_all_prevs d prog s2 h ≡ ok new_pre
        → Round v s s2 new_pre
    round v s s1 s2 new_pre r (p, ep, same) e1 e2 e3 =
        let t = IfOk-value e1 (transform_to_post-Transformed d sem prog h v s) in
        let (q, eq, same_pre) = t.pre-kept p ep in
        let w = IfOk-value e2 (pass-Visited s1 (t.skip-same ∙ r.not_skipped) (t.marks r.marked)) in
        let joined = IfOk-value e3 (join_all_prevs-Denotes d sem prog s2 h not_entry) in
        let still = w.frame h head_apart in
        record {
          ready = record {
            not_skipped = w.not_skipped;
            marked = w.marked;
            quiet = λ k. r.quiet (t.quiet (w.quiet k));
            frame = λ u k. w.frame u (ground arith) ∙ t.frame u (outside u k) ∙ r.frame u k;
          };
          head_pre = (q, still ∙ eq, same_pre ∙ same);
          calm = λ k. t.quiet (w.quiet k);
          closes = λ k close u x f.
              let at_head =
                Transformed-Covered d sem prog t q eq (same_pre ∙ same) r.marked (w.quiet k) in
              let g = parts v s s1 s2 new_pre r t w joined k close at_head u x f in
              (g.0, cover v s s1 s2 new_pre r t w joined k close at_head u x f g);
        }
