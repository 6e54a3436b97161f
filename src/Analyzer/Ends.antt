-- ===== src/Analyzer/Ends.antt =====
-- The analysis ends: `run` of src/fwd_analyzer.cpp with enough fuel for the loops over a cycle.
use prevail.Prelude.{
  ℕ, zero, suc, ◌+◌, ◌<◌, ◌≤◌, ltb, ◌==◌, ◌≡◌, refl, Bool, true, false, not, ◌&&◌, List, [], ◌∷◌,
  arith, Bool-cases, inl, inr,
}
use prevail.Prelude.Result.{Result}
use prevail.Prelude.Fuel.{Fueled, returned, failed, bind-Fueled, if-Fueled}
use prevail.Cfg.Label.{Label}
use prevail.Cfg.Graph.{entry}
use prevail.Cfg.Wto.{CycleOrLabel, vertex, cycle, WtoPartition, nil, cons}
use prevail.Ir.Syntax.{Assertion}
use prevail.Ir.Program.{Program}
use prevail.Analyzer.{Domain, InvariantMapPair, Analysis, is_increment, set_pre, set_error}
use prevail.Analyzer.Visits.{
  extrapolate, increase, descend, decrease, visit_loop, visit_cycle, is_vertex, visit,
  visit_members, visit_all, one_check, check_loop_bound, find_termination_errors, counted, run,
}
use prevail.Analyzer.Calls.{
  component_member-Fueled, head-Fueled, loop_heads-Fueled, instruction_at-Fueled,
  assertions_at-Fueled, set_pair-Fueled, transform_to_post-Fueled, join_all_prevs-Fueled,
  visit_label-Fueled, initial_invariant-Fueled, Answers,
}

-- A widening that meets no new values after a bounded number of times.
pub record Ranked (d : Domain) (bound : ℕ) : Type 0 where
  pub answers : Answers d
  pub rank : d.Value → ℕ
  pub rank-le : (v : d.Value) → rank v ≤ bound
  pub rank-widen : (v w : d.Value) → d.le w v ≡ false → rank (d.widen v w false) < rank v

module _ (d : Domain) (bound : ℕ) (ranked : Ranked d bound) (prog : Program) where
  module _ (h : Label) (pass : Analysis d.Value → Result (Analysis d.Value))
      (pass-Fueled : (s : Analysis d.Value) → Fueled (pass s)) where
    -- From the third round on, each round that does not end the loop lowers the rank.
    widening-Fueled :
        (fuel iteration : ℕ) (v : d.Value) (s : Analysis d.Value)
        → 3 ≤ iteration
        → ranked.rank v < fuel
        → Fueled (increase d prog h pass fuel iteration v s)
    unfolding increase set_pre extrapolate
    widening-Fueled zero iteration v s late enough = absurd (omega arith)
    widening-Fueled (suc fuel) iteration v s late enough =
        bind-Fueled (set_pair-Fueled d ranked.answers prog s h _) λ s1.
          bind-Fueled (transform_to_post-Fueled d ranked.answers prog s1 h v) λ s2.
            bind-Fueled (pass-Fueled s2) λ s3.
              bind-Fueled (join_all_prevs-Fueled d ranked.answers prog s3 h) λ w.
                elim (Bool-cases (d.le w v)) [
                  | inl stop ↦
                      rw stop
                        (bind-Fueled (set_pair-Fueled d ranked.answers prog s3 h _) λ s4. returned)
                  | inr more ↦
                      let late_round : ltb iteration 2 ≡ false = ground arith in
                      let not_first : (iteration == 2) ≡ false = ground arith in
                      rw (more, late_round, not_first)
                        (widening-Fueled fuel (suc iteration) _ s3 (omega arith)
                          (omega (arith, ranked.rank-widen v w more)))
                ]

    -- A round that goes on with `again`.
    round-Fueled :
        (fuel iteration : ℕ) (v : d.Value) (s : Analysis d.Value)
        → ((w : d.Value) (s3 : Analysis d.Value)
            → Fueled (increase d prog h pass fuel (suc iteration) (extrapolate d v w iteration) s3))
        → Fueled (increase d prog h pass (suc fuel) iteration v s)
    unfolding increase set_pre
    round-Fueled fuel iteration v s again =
        bind-Fueled (set_pair-Fueled d ranked.answers prog s h _) λ s1.
          bind-Fueled (transform_to_post-Fueled d ranked.answers prog s1 h v) λ s2.
            bind-Fueled (pass-Fueled s2) λ s3.
              bind-Fueled (join_all_prevs-Fueled d ranked.answers prog s3 h) λ w.
                if-Fueled (d.le w v) _ _
                  (bind-Fueled (set_pair-Fueled d ranked.answers prog s3 h _) λ s4. returned)
                  (again w s3)

    -- The first round joins, the second may widen to limits.
    increase-Fueled :
        (fuel : ℕ) (v : d.Value) (s : Analysis d.Value)
        → bound + 3 ≤ fuel
        → Fueled (increase d prog h pass fuel 1 v s)
    increase-Fueled zero v s enough = absurd (omega arith)
    increase-Fueled (suc zero) v s enough = absurd (omega arith)
    increase-Fueled (suc (suc fuel)) v s enough = round-Fueled (suc fuel) 1 v s λ w s3.
        round-Fueled fuel 2 _ s3 λ w4 s4.
          widening-Fueled fuel 3 _ s4 (omega arith)
            (omega (arith, ranked.rank-le (extrapolate d (extrapolate d v w 1) w4 2)))

    descend-Fueled : (v : d.Value) (s : Analysis d.Value) → Fueled (descend d prog h pass v s)
    unfolding descend
    descend-Fueled v s = bind-Fueled (transform_to_post-Fueled d ranked.answers prog s h v) λ s1.
        bind-Fueled (pass-Fueled s1)
          λ s2. bind-Fueled (join_all_prevs-Fueled d ranked.answers prog s2 h) λ w. returned

    decrease-Fueled :
        (left iteration : ℕ) (v : d.Value) (s : Analysis d.Value)
        → Fueled (decrease d prog h pass left iteration v s)
    unfolding decrease set_pre
    decrease-Fueled zero iteration v s = bind-Fueled (descend-Fueled v s) λ r. returned
    decrease-Fueled (suc left) iteration v s = bind-Fueled (descend-Fueled v s) λ (s2, w).
        if-Fueled (d.le v w) _ _ returned (
          bind-Fueled (set_pair-Fueled d ranked.answers prog s2 h _)
            λ s3. decrease-Fueled left (suc iteration) _ s3)

  module _ (fuel : ℕ) (enough : bound + 3 ≤ fuel) (wto : WtoPartition) where
    loop-Fueled :
        (h : Label) (inside : Bool) (pass : Analysis d.Value → Result (Analysis d.Value))
        (s : Analysis d.Value)
        → ((t : Analysis d.Value) → Fueled (pass t))
        → Fueled (visit_loop d fuel prog wto h inside pass s)
    unfolding visit_loop
    loop-Fueled h inside pass s p =
        bind-Fueled (initial_invariant-Fueled d ranked.answers prog wto s h inside) λ v.
          bind-Fueled (increase-Fueled h pass p fuel v s enough)
            λ (s1, stable). decrease-Fueled h pass p _ 1 stable s1

    mutual
      unfolding visit visit_members visit_cycle

      visit-Fueled : (c : CycleOrLabel) (s : Analysis d.Value) → Fueled (visit d fuel prog wto c s)
      visit-Fueled (vertex l) s = visit_label-Fueled d ranked.answers prog s l
      visit-Fueled (cycle c) s = bind-Fueled (head-Fueled c) λ h.
          if-Fueled s.skip _ _
            (bind-Fueled (component_member-Fueled entry (cycle c)) λ inside.
              if-Fueled inside _ _ (loop-Fueled h true _ _ (λ t. members-Fueled h c t)) returned)
            (loop-Fueled h false _ s (λ t. members-Fueled h c t))

      members-Fueled :
          (h : Label) (cs : WtoPartition) (s : Analysis d.Value)
          → Fueled (visit_members d fuel prog wto h cs s)
      members-Fueled h nil s = returned
      members-Fueled h (cons c cs) s =
          bind-Fueled (if-Fueled (is_vertex h c) _ _ returned (visit-Fueled c s))
            λ s1. members-Fueled h cs s1

    all-Fueled :
        (cs : WtoPartition) (s : Analysis d.Value) → Fueled (visit_all d fuel prog wto cs s)
    unfolding visit_all
    all-Fueled nil s = returned
    all-Fueled (cons c cs) s = bind-Fueled (visit-Fueled c s) λ s1. all-Fueled cs s1

    bound-Fueled : (l : Label) (v : d.Value) → Fueled (check_loop_bound d prog l v)
    unfolding check_loop_bound
    bound-Fueled l v = bind-Fueled (instruction_at-Fueled prog l) λ i.
        if-Fueled (is_increment i) _ _
          (bind-Fueled (assertions_at-Fueled prog l)
            λ checks. bind-Fueled (one-Fueled checks) λ a. ranked.answers.fails-Fueled v a l)
          returned
      where
        one-Fueled : (checks : List Assertion) → Fueled (one_check checks)
        one-Fueled [] = failed refl
        one-Fueled (a ∷ []) = returned
        one-Fueled (a ∷ b ∷ rest) = failed refl

    termination-Fueled :
        (m : List (Label × InvariantMapPair d.Value)) (s : Analysis d.Value)
        → Fueled (find_termination_errors d prog m s)
    unfolding find_termination_errors set_error
    termination-Fueled [] s = returned
    termination-Fueled ((l, p) ∷ rest) s =
        bind-Fueled
          (if-Fueled (d.is_bottom p.pre) _ _ returned (
            bind-Fueled (bound-Fueled l p.pre)
              λ t. if-Fueled t _ _ (set_pair-Fueled d ranked.answers prog _ l _) returned))
          λ s1. termination-Fueled rest s1

    counted-Fueled : (check : Bool) (v : d.Value) → Fueled (counted d check wto v)
    counted-Fueled false v = returned
    counted-Fueled true v = bind-Fueled (loop_heads-Fueled wto) λ heads. returned

    -- Where the values of a domain have ranks up to a bound, which each widening by a value that
    -- is not included lowers, the analysis with three more rounds of fuel for each loop than the
    -- bound never runs out of it: it returns or fails with an error of the source, whatever the
    -- program, the order and the first state.
    pub run-Fueled : (check : Bool) (inv : d.Value) → Fueled (run d fuel prog wto check inv)
    unfolding run set_pre
    run-Fueled check inv = bind-Fueled (counted-Fueled check inv) λ v.
        bind-Fueled (set_pair-Fueled d ranked.answers prog _ entry _) λ s1.
          bind-Fueled (all-Fueled wto s1) λ s2.
            if-Fueled (not s2.failed && check) _ _ (termination-Fueled s2.invariants s2) returned
