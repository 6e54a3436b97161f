-- ===== src/Analyzer/Loops.antt =====
-- The increasing and the decreasing sequence of rounds over a cycle.
use prevail.Prelude.{ℕ, zero, suc, ◌≡◌, refl, sym, ◌∙◌, Bool, false, ◌==◌, inl, inr, Bool-cases}
use prevail.Prelude.Result.{Result, IfOk, yields, throws, IfOk-bind, IfOk-value}
use prevail.Cfg.Label.{Label, same_label}
use prevail.Cfg.Order.Laws.{same_label_self}
use prevail.Cfg.Graph.{entry}
use prevail.Cfg.Wto.{WtoPartition}
use prevail.Ir.Program.{Program}
use prevail.Analyzer.{
  Domain, Analysis, set_pair, set_pre, with_pre, transform_to_post, join_all_prevs,
}
use prevail.Analyzer.Visits.{
  increase, descend, decrease, extrapolate, refine, visit_loop, initial_invariant,
}
use prevail.Analyzer.Semantics.{Semantics}
use prevail.Analyzer.Pairs.{Marks, SetTo, set_pair-SetTo, set-Marks}
use prevail.Analyzer.Flows.{Flow, Visited}
use prevail.Analyzer.Rounds.{whole_cycle, Ready, HeadPre, Round, round, outside}

module _ (d : Domain) (sem : Semantics d) (prog : Program) (h : Label) (B : Label → Bool)
    (s0 : Analysis d.Value) (pass : Analysis d.Value → Result (Analysis d.Value))
    (not_entry : same_label h entry ≡ false) (head_apart : B h ≡ false)
    (pass-Visited : (t : Analysis d.Value)
      → t.skip ≡ false
      → Marks t
      → IfOk (Visited d sem prog B t) (pass t)) where
  -- The state before the head holds all that flows to it.
  record Stable (v : d.Value) (s : Analysis d.Value) : Type 0 where
    ready : Ready d sem prog h B s0 s
    head_pre : HeadPre d sem prog h B s0 v s
    holds :
        s.failed ≡ false
        → (x : sem.State) → Flow d sem prog (whole_cycle d sem prog h B s0) s0 h x
        → sem.Denotes v x

  head_whole : (u : Label) → whole_cycle d sem prog h B s0 u ≡ false → same_label u h ≡ false
  head_whole = outside d sem prog h B s0 pass not_entry head_apart pass-Visited

  set_head :
      (v : d.Value) (s s' : Analysis d.Value)
      → Ready d sem prog h B s0 s
      → SetTo s h (with_pre v) s'
      → Ready d sem prog h B s0 s' × HeadPre d sem prog h B s0 v s'
  set_head v s s' r t = (
    record {
      not_skipped = t.skip-same ∙ r.not_skipped;
      marked = set-Marks t (λ p. refl) r.marked;
      quiet = λ q. r.quiet (sym t.failed-same ∙ q);
      frame = λ u k. t.pair_at-other u (head_whole u k) ∙ r.frame u k;
    },
    (_, t.pair_at-after, refl),
  )

  increase-Stable :
      (fuel iteration : ℕ) (v : d.Value) (s : Analysis d.Value)
      → Ready d sem prog h B s0 s
      → IfOk (λ r. Stable r.1 r.0) (increase d prog h pass fuel iteration v s)
  unfolding increase set_pre
  increase-Stable zero iteration v s r = throws
  increase-Stable (suc fuel) iteration v s r = IfOk-bind (set_pair s h (with_pre v)) λ s1 e1.
      let (r1, p1) = set_head v s s1 r (IfOk-value e1 (set_pair-SetTo s h (with_pre v))) in
      IfOk-bind (transform_to_post d prog s1 h v) λ s2 e2. IfOk-bind (pass s2) λ s3 e3.
        IfOk-bind (join_all_prevs d prog s3 h) λ new_pre e4.
          let done =
            round d sem prog h B s0 pass not_entry head_apart pass-Visited v s1 s2 s3 new_pre r1 p1
              e2 e3 e4 in
          elim (Bool-cases (d.le new_pre v)) [
            | inl stop ↦ rw stop (
                IfOk-bind (set_pair s3 h (with_pre new_pre)) λ s4 e5.
                  let t = IfOk-value e5 (set_pair-SetTo s3 h (with_pre new_pre)) in
                  let (r4, p4) = set_head new_pre s3 s4 done.ready t in
                  yields (record {
                    ready = r4;
                    head_pre = p4;
                    holds = λ q x f.
                        (done.closes (sym t.failed-same ∙ q)
                            (λ y g k. sem.le-Denotes new_pre v y stop k) h x f).0
                          (same_label_self h);
                  }))
            | inr more ↦ rw more (
                increase-Stable fuel (suc iteration) (extrapolate d v new_pre iteration) s3
                  done.ready)
          ]

  descend-Round :
      (v : d.Value) (s : Analysis d.Value)
      → Stable v s
      → IfOk (λ r. Round d sem prog h B s0 v s r.0 r.1) (descend d prog h pass v s)
  unfolding descend
  descend-Round v s st = IfOk-bind (transform_to_post d prog s h v) λ s1 e1.
      IfOk-bind (pass s1) λ s2 e2. IfOk-bind (join_all_prevs d prog s2 h) λ new_pre e3. yields (
        round d sem prog h B s0 pass not_entry head_apart pass-Visited v s s1 s2 new_pre st.ready
          st.head_pre e1 e2 e3)

  fixpoint_kept :
      (v : d.Value) (s s2 : Analysis d.Value) (new_pre : d.Value)
      → Stable v s
      → Round d sem prog h B s0 v s s2 new_pre
      → Visited d sem prog (whole_cycle d sem prog h B s0) s0 s2
  fixpoint_kept v s s2 new_pre st r = record {
    not_skipped = r.ready.not_skipped;
    marked = r.ready.marked;
    quiet = r.ready.quiet;
    frame = r.ready.frame;
    covers = λ q u x f. (r.closes q (λ y g k. st.holds (r.calm q) y g) u x f).1;
  }

  refine-Denotes :
      (before after : d.Value) (iteration : ℕ) (x : sem.State)
      → sem.Denotes before x
      → sem.Denotes after x
      → sem.Denotes (refine d before after iteration) x
  unfolding refine
  refine-Denotes before after iteration x a b = elim (Bool-cases (iteration == 1)) [
    | inl first ↦ rw first (sem.meet-Denotes before after x a b)
    | inr later ↦ rw later (sem.narrow-Denotes before after x a b)
  ]

  decrease-Visited :
      (left iteration : ℕ) (v : d.Value) (s : Analysis d.Value)
      → Stable v s
      → IfOk
          (Visited d sem prog (whole_cycle d sem prog h B s0) s0)
          (decrease d prog h pass left iteration v s)
  unfolding decrease set_pre
  decrease-Visited zero iteration v s st = IfOk-bind (descend d prog h pass v s) λ (s2, new_pre) e.
      yields (fixpoint_kept v s s2 new_pre st (IfOk-value e (descend-Round v s st)))
  decrease-Visited (suc left) iteration v s st =
      IfOk-bind (descend d prog h pass v s) λ (s2, new_pre) e.
        let r = IfOk-value e (descend-Round v s st) in
        elim (Bool-cases (d.le v new_pre)) [
          | inl stop ↦ rw stop (yields (fixpoint_kept v s s2 new_pre st r))
          | inr more ↦ rw more (
              IfOk-bind (set_pair s2 h (with_pre (refine d v new_pre iteration))) λ s3 e3.
                let t = IfOk-value e3 (set_pair-SetTo s2 h _) in
                let (r3, p3) = set_head (refine d v new_pre iteration) s2 s3 r.ready t in
                decrease-Visited left (suc iteration) (refine d v new_pre iteration) s3 (record {
                  ready = r3;
                  head_pre = p3;
                  holds = λ q x f.
                      let calm = sym t.failed-same ∙ q in
                      let old = st.holds (r.calm calm) in
                      refine-Denotes v new_pre iteration x (old x f)
                        ((r.closes calm (λ y g k. old y g) h x f).0 (same_label_self h));
                }))
        ]

  pub visit_loop-Visited :
      (fuel : ℕ) (wto : WtoPartition) (entry_in_this_cycle : Bool)
      → s0.skip ≡ false
      → Marks s0
      → IfOk
          (Visited d sem prog (whole_cycle d sem prog h B s0) s0)
          (visit_loop d fuel prog wto h entry_in_this_cycle pass s0)
  unfolding visit_loop
  visit_loop-Visited fuel wto entry_in_this_cycle skips m =
      IfOk-bind (initial_invariant d prog wto s0 h entry_in_this_cycle) λ v _.
        IfOk-bind (increase d prog h pass fuel 1 v s0) λ (s1, stable) e.
          decrease-Visited _ 1 stable s1 (
            IfOk-value e (
              increase-Stable fuel 1 v s0
                (record { not_skipped = skips; marked = m; quiet = λ q. q; frame = λ u k. refl })))
