-- ===== src/Analyzer/Flows.antt =====
-- The states that flow through a set of labels, and what a visit of the set says of them.
use prevail.Prelude.{◌≡◌, refl, sym, ◌∙◌, Bool, true, false, ◌||◌, inl, inr, Bool-cases, arith}
use prevail.Prelude.Result.{ok, IfOk, IfOk-bind, IfOk-value, IfOk-map}
use prevail.Cfg.Label.{Label, same_label}
use prevail.Cfg.Order.Laws.{same_label_iff}
use prevail.Cfg.Graph.{entry}
use prevail.Ir.Syntax.{Instruction}
use prevail.Ir.Program.{Program, instruction_at}
use prevail.Analyzer.{
  Domain, InvariantMapPair, Analysis, pair_at, set_pair, set_pre, with_pre, join_all_prevs,
}
use prevail.Analyzer.Visits.{visit_node}
use prevail.Analyzer.Semantics.{Semantics, Post, Parent, Covered}
use prevail.Analyzer.Pairs.{Marks, set_pair-SetTo, set-Marks, Transformed, ok-injective}
use prevail.Analyzer.Nodes.{transform_to_post-Transformed, join_all_prevs-Denotes}
use mathlib.Core.Path.{subst}

pub false-not-true : {A : Type 0} {b : Bool} → b ≡ true → b ≡ false → A
false-not-true h k = absurd (clash (sym h ∙ k))
  where
    clash : true ≡ false → ⊥
    clash e = cc

abbrev pub either_set : (Label → Bool) → (Label → Bool) → Label → Bool
either_set M N l = M l || N l

module _ (d : Domain) (sem : Semantics d) (prog : Program) where
  -- The states that come to the labels of a set from the states after the labels outside it.
  pub data Flow (M : Label → Bool) (s : Analysis d.Value) : Label → sem.State → Type 0 where
    enter :
        (u v : Label) (x : sem.State)
        → M u ≡ false
        → M v ≡ true
        → Parent prog u v
        → Post d sem prog s u x
        → Flow M s v x
    inside :
        (u v : Label) (i : Instruction) (x y : sem.State)
        → Flow M s u x
        → instruction_at prog u ≡ ok i
        → sem.Step i x y
        → Parent prog u v
        → M v ≡ true
        → Flow M s v y

  pub Flow-member :
      {M : Label → Bool} {s : Analysis d.Value} {v : Label} {x : sem.State}
      → Flow M s v x
      → M v ≡ true
  Flow-member (enter u v x h m e p) = m
  Flow-member (inside u v i x y f e t p m) = m

  pub record Visited (M : Label → Bool) (s s' : Analysis d.Value) : Type 0 where
    pub not_skipped : s'.skip ≡ false
    pub marked : Marks s'
    pub quiet : s'.failed ≡ false → s.failed ≡ false
    pub frame : (u : Label) → M u ≡ false → pair_at s' u ≡ pair_at s u
    pub covers :
        s'.failed ≡ false → (v : Label) (x : sem.State) → Flow M s v x → Covered d sem prog s' v x

  pub Post-moved :
      (s s' : Analysis d.Value) (u : Label) {x : sem.State}
      → pair_at s' u ≡ pair_at s u
      → Post d sem prog s u x
      → Post d sem prog s' u x
  Post-moved s s' u e (p, h, k) = (p, e ∙ h, k)

  pub Covered-moved :
      {s s' : Analysis d.Value} {u : Label} {x : sem.State}
      → pair_at s' u ≡ pair_at s u
      → Covered d sem prog s u x
      → Covered d sem prog s' u x
  Covered-moved e c = record {
    pair = c.pair;
    pair_at-ok = e ∙ c.pair_at-ok;
    pre-Denotes = c.pre-Denotes;
    assertions-Checked = c.assertions-Checked;
    post-Denotes = c.post-Denotes;
  }

  pub Covered-Post :
      {s : Analysis d.Value} {u : Label} {x y : sem.State} {i : Instruction}
      → Covered d sem prog s u x
      → instruction_at prog u ≡ ok i
      → sem.Step i x y
      → Post d sem prog s u y
  Covered-Post c e t = (c.pair, c.pair_at-ok, c.post-Denotes _ _ e t)

  -- What `transform_to_post` shows, put together with the state before.
  pub Transformed-Covered :
      {l : Label} {v : d.Value} {s s' : Analysis d.Value}
      → Transformed d sem prog l v s s'
      → (p : InvariantMapPair d.Value) → pair_at s' l ≡ ok p
      → p.pre ≡ v
      → Marks s
      → s'.failed ≡ false
      → (x : sem.State) → sem.Denotes v x
      → Covered d sem prog s' l x
  Transformed-Covered {l} {v} {s} {s'} t p e same m q x k =
      let r = t.result m q x k in
      record {
        pair = p;
        pair_at-ok = e;
        pre-Denotes = subst (λ w. sem.Denotes w x) (sym same) k;
        assertions-Checked = r.0;
        post-Denotes = λ i y ei step.
            let (p', e', k') = r.1 i y ei step in
            subst (λ w. sem.Denotes w.post y) (ok-injective (sym e' ∙ e)) k';
      }

  -- A vertex that is not its own parent.
  pub visit_node-Visited :
      (s : Analysis d.Value) (l : Label)
      → ¬ Parent prog l l
      → same_label l entry ≡ false
      → s.skip ≡ false
      → Marks s
      → IfOk (Visited (same_label l) s) (visit_node d prog s l)
  unfolding visit_node set_pre
  visit_node-Visited s l no_loop n skips m = IfOk-bind (join_all_prevs d prog s l) λ v ev.
      let joined = IfOk-value ev (join_all_prevs-Denotes d sem prog s l n) in
      IfOk-bind (set_pair s l (with_pre v)) λ s1 e1.
        let t = IfOk-value e1 (set_pair-SetTo s l (with_pre v)) in
        let m1 = set-Marks t (λ p. refl) m in
        IfOk-map (transform_to_post-Transformed d sem prog l v s1) λ s2 r.
          let (p, ep, same) = r.pre-kept _ t.pair_at-after in
          record {
            not_skipped = r.skip-same ∙ t.skip-same ∙ skips;
            marked = r.marks m1;
            quiet = λ q. sym t.failed-same ∙ r.quiet q;
            frame = λ u h. r.frame u (flip l u h) ∙ t.pair_at-other u (flip l u h);
            covers = λ q v' x f.
                covered l v s s2 joined no_loop (Transformed-Covered r p ep same m1 q) v' x f;
          }
    where
      flip : (a b : Label) → same_label a b ≡ false → same_label b a ≡ false
      flip a b h = elim (Bool-cases (same_label b a)) [
        | inl same ↦ false-not-true ((same_label_iff a b).1 (sym ((same_label_iff b a).0 same))) h
        | inr other ↦ other
      ]

      covered :
          (l : Label) (v : d.Value) (s s2 : Analysis d.Value)
          → ((u : Label) (x : sem.State)
              → Parent prog u l
              → Post d sem prog s u x
              → sem.Denotes v x)
          → (¬ Parent prog l l)
          → ((x : sem.State) → sem.Denotes v x → Covered d sem prog s2 l x)
          → (w : Label) (x : sem.State) → Flow (same_label l) s w x
          → Covered d sem prog s2 w x
      covered l v s s2 joined no_loop all w x (enter u _ _ h h' e p) =
          let same : l ≡ w = (same_label_iff l w).0 h' in
          subst (λ k. Covered d sem prog s2 k x) same
            (all x (joined u x (subst (λ k. Parent prog u k) (sym same) e) p))
      covered l v s s2 joined no_loop all w y (inside u _ i x _ f e t p h') =
          let here : l ≡ u = (same_label_iff l u).0 (Flow-member f) in
          let there : l ≡ w = (same_label_iff l w).0 h' in
          absurd (
            no_loop (
              subst (λ k. Parent prog l k) (sym there) (subst (λ k. Parent prog k w) (sym here) p)))

  -- A visit of two sets, one after the other, where no edge leads back.
  pub then-Visited :
      {M N : Label → Bool} {s s1 s2 : Analysis d.Value}
      → ((l : Label) → M l ≡ true → N l ≡ false)
      → ((u v : Label) → N u ≡ true → M v ≡ true → ¬ Parent prog u v)
      → Visited M s s1
      → Visited N s1 s2
      → Visited (either_set M N) s s2
  then-Visited {M} {N} {s} {s1} {s2} apart forward a b = record {
    not_skipped = b.not_skipped;
    marked = b.marked;
    quiet = λ q. a.quiet (b.quiet q);
    frame = λ u h. b.frame u (ground arith) ∙ a.frame u (ground arith);
    covers = λ q v x f.
        let r = split q v x f in
        elim (Bool-cases (M v)) [
          | inl first ↦
              Covered-moved (b.frame v (apart v first)) (a.covers (b.quiet q) v x (r.0 first))
          | inr other ↦ b.covers q v x (r.1 (later v other (Flow-member f)))
        ];
  }
    where
      later : (v : Label) → M v ≡ false → (M v || N v) ≡ true → N v ≡ true
      later v h k = ground arith

      split :
          s2.failed ≡ false
          → (v : Label) (x : sem.State) → Flow (either_set M N) s v x
          → (M v ≡ true → Flow M s v x) × (N v ≡ true → Flow N s1 v x)
      split q v x (enter u _ _ h m e p) = (
        λ first. enter u v x (ground arith) first e p,
        λ second.
            enter u v x (ground arith) second e (Post-moved s s1 u (a.frame u (ground arith)) p),
      )
      split q v y (inside u _ i x _ f e t p m) =
          let r = split q u x f in
          elim (Bool-cases (M u)) [
            | inl first ↦ (
              λ here. inside u v i x y (r.0 first) e t p here,
              λ there.
                  enter u v y (apart u first) there p
                    (Covered-Post (a.covers (b.quiet q) u x (r.0 first)) e t),
            )
            | inr other ↦
                let second = later u other (Flow-member f) in
                (
                  λ here. absurd (forward u v second here p),
                  λ there. inside u v i x y (r.1 second) e t p there,
                )
          ]
