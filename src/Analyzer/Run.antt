-- ===== src/Analyzer/Run.antt =====
-- `run` of src/fwd_analyzer.cpp to its end, with the check of the loop counters.
use prevail.Prelude.{
  ℕ, ◌≡◌, refl, sym, ap, ◌∙◌, Bool, true, false, not, ◌&&◌, ◌⊎◌, inl, inr, Bool-cases, Option, none,
  some, List, [], ◌∷◌, if◌then◌else◌, arith,
}
use prevail.Prelude.Lists.{All}
use prevail.Prelude.Result.{ok, ◌>>=◌, IfOk, yields, IfOk-bind, IfOk-value, IfOk-map, IfOk-if}
use prevail.Cfg.Label.{Label, same_label}
use prevail.Cfg.Order.{find}
use prevail.Cfg.Order.Laws.{same_label_iff}
use prevail.Cfg.Graph.{entry}
use prevail.Cfg.Wto.{WtoPartition, vertex, cons}
use prevail.Ir.Syntax.{Instruction, Assertion}
use prevail.Ir.Program.{Program, instruction_at, assertions_at}
use prevail.Analyzer.{
  Domain, InvariantMapPair, Analysis, is_increment, pair_at, set_pair, set_pre, set_error, with_pre,
  with_error, present_or_missing,
}
use prevail.Analyzer.Visits.{
  visit, visit_all, visit_label, start, counted, run, check_loop_bound, one_check,
  find_termination_errors,
}
use prevail.Analyzer.Semantics.{Semantics, Reaches, Covered}
use prevail.Analyzer.Pairs.{SetTo, set_pair-SetTo, set-Marks, ok-injective}
use prevail.Analyzer.Flows.{false-not-true}
use prevail.Analyzer.Components.{visit_all-Visited}
use prevail.Analyzer.Sound.{IsOrder, Initial, entry_label, start-Marks, all-Covered}
use mathlib.Core.Path.{subst}

module _ (d : Domain) (sem : Semantics d) (prog : Program) where
  -- The assertions of a node that counts a loop's rounds hold.
  abbrev pub Counting : Label → sem.State → Type 0
  Counting u x =
      (i : Instruction) (checks : List Assertion)
      → instruction_at prog u ≡ ok i
      → is_increment i ≡ true
      → assertions_at prog u ≡ ok checks
      → All (λ a. sem.Holds a u x) checks

  one-Holds :
      (u : Label) (v : d.Value) (x : sem.State) (checks : List Assertion)
      → (do a ← one_check checks; d.fails v a u) ≡ ok false
      → sem.Denotes v x
      → All (λ a. sem.Holds a u x) checks
  one-Holds u v x [] h k = cc
  one-Holds u v x (a ∷ []) h k = (sem.fails-Holds v a u x h k, tt)
  one-Holds u v x (a ∷ b ∷ rest) h k = cc

  bound-Counting :
      (u : Label) (v : d.Value) (x : sem.State)
      → check_loop_bound d prog u v ≡ ok false
      → sem.Denotes v x
      → Counting u x
  unfolding check_loop_bound
  bound-Counting u v x h k i checks e counts c = one-Holds u v x checks (rw (e, counts, c) at h) k

  -- What one round of `find_termination_errors` leaves.
  abbrev Bounded : Label → InvariantMapPair d.Value → Type 0
  Bounded l p = d.is_bottom p.pre ≡ false → check_loop_bound d prog l p.pre ≡ ok false

  one_node :
      (l : Label) (p : InvariantMapPair d.Value) (s : Analysis d.Value)
      → IfOk
          (λ s1. ((s1 ≡ s) × Bounded l p) ⊎ (s1.failed ≡ true))
          (if d.is_bottom p.pre
            then ok s
            else (do t ← check_loop_bound d prog l p.pre; (if t then set_error s l else ok s)))
  unfolding set_error
  one_node l p s =
      IfOk-if (d.is_bottom p.pre) (λ empty. yields (inl (refl, λ h. false-not-true empty h)))
        (λ possible. IfOk-bind (check_loop_bound d prog l p.pre) (result possible))
    where
      result :
          d.is_bottom p.pre ≡ false
          → (t : Bool) → check_loop_bound d prog l p.pre ≡ ok t
          → IfOk
              (λ s1. ((s1 ≡ s) × Bounded l p) ⊎ (s1.failed ≡ true))
              (if t then set_error s l else ok s)
      result h true e =
          IfOk-map (set_pair-SetTo (record s { failed = true }) l with_error)
            (λ s1 t. inr t.failed-same)
      result h false e = yields (inl (refl, λ k. e))

  all-Bounded :
      (m : List (Label × InvariantMapPair d.Value)) (s : Analysis d.Value)
      → IfOk
          (λ s'.
            s'.failed ≡ false
            → (s' ≡ s)
              × ((l : Label) (p : InvariantMapPair d.Value) → find l m ≡ some p → Bounded l p))
          (find_termination_errors d prog m s)
  unfolding find_termination_errors find
  all-Bounded [] s = yields (λ calm. (refl, λ l p e. cc))
  all-Bounded ((k, q) ∷ rest) s = IfOk-bind _ λ s1 e1. IfOk-map (all-Bounded rest s1) λ s' h calm.
      let (same, later) = h calm in
      elim (IfOk-value e1 (one_node k q s)) [
        | inl (kept, here) ↦ (
          same ∙ kept,
          λ l p e. elim (Bool-cases (same_label l k)) [
            | inl found ↦
                let at_key : l ≡ k = (same_label_iff l k).0 found in
                let pair : q ≡ p = ground arith in
                subst (λ j. Bounded j p) (sym at_key) (subst (λ r. Bounded k r) pair here)
            | inr other ↦ later l p (ground arith)
          ],
        )
        | inr bad ↦ false-not-true (ap (λ t. t.failed) same ∙ bad) calm
      ]

  at-find :
      (s : Analysis d.Value) (l : Label) (p : InvariantMapPair d.Value)
      → pair_at s l ≡ ok p
      → find l s.invariants ≡ some p
  unfolding pair_at
  at-find s l p e = invert (find l s.invariants) e
    where
      invert : (r : Option (InvariantMapPair d.Value)) → present_or_missing r ≡ ok p → r ≡ some p
      invert none h = cc
      invert (some q) h = ap some (ok-injective h)

  -- What the analysis shows of a state at a node.
  abbrev pub Verified : Bool → Analysis d.Value → Label → sem.State → Type 0
  Verified check s u x = Covered d sem prog s u x × (check ≡ true → Counting u x)

  finished :
      (check : Bool) (s : Analysis d.Value) (Start : sem.State → Type 0)
      → (s.failed ≡ false
          → (u : Label) (x : sem.State) → Reaches d sem prog Start u x
          → Covered d sem prog s u x)
      → IfOk
          (λ s'.
            s'.failed ≡ false
            → (u : Label) (x : sem.State) → Reaches d sem prog Start u x
            → Verified check s' u x)
          (if not s.failed && check then find_termination_errors d prog s.invariants s else ok s)
  finished false s Start h =
      rw (and_false (not s.failed))
        (yields (λ calm u x r. (h calm u x r, λ e. false-not-true e refl)))
    where
      and_false : (b : Bool) → (b && false) ≡ false
      and_false true = refl
      and_false false = refl
  finished true s Start h =
      IfOk-if (not s.failed && true)
        (λ good. IfOk-map (all-Bounded s.invariants s) λ s' k calm u x r.
          let (same, bounded) = k calm in
          let c = h (ground arith) u x r in
          (
            subst (λ t. Covered d sem prog t u x) (sym same) c,
            λ _. elim (Bool-cases (d.is_bottom c.pair.pre)) [
              | inl empty ↦ absurd (sem.is_bottom-empty c.pair.pre x empty c.pre-Denotes)
              | inr possible ↦
                  bound-Counting u c.pair.pre x
                    (bounded u c.pair (at-find s u c.pair c.pair_at-ok) possible) c.pre-Denotes
            ],
          ))
        (λ bad. yields (λ calm u x r. absurd (ground arith)))

  visited :
      (fuel : ℕ) (wto : WtoPartition) (v : d.Value) (s1 : Analysis d.Value)
      (Start : sem.State → Type 0) (o : IsOrder prog wto)
      → ((y : sem.State) → Start y → sem.Denotes v y)
      → SetTo (start d prog) entry (with_pre v) s1
      → IfOk
          (λ s.
            s.failed ≡ false
            → (u : Label) (x : sem.State) → Reaches d sem prog Start u x
            → Covered d sem prog s u x)
          (visit_all d fuel prog wto (cons (vertex entry) o.rest) s1)
  unfolding visit_all visit
  visited fuel wto v s1 Start o started t =
      let m1 = set-Marks t (λ p. refl) (start-Marks d sem prog) in
      IfOk-bind (visit_label d prog s1 entry) λ s2 e2.
        let a = IfOk-value e2 (entry_label d sem prog v s1 _ t.pair_at-after refl m1) in
        IfOk-map
          (visit_all-Visited d sem prog fuel wto o.rest s2 o.rest-AllOrdered a.not_skipped a.marked)
          λ s3 b calm u x r. all-Covered d sem prog wto o v s2 s3 a b calm Start started u x r

  -- If the analysis of a program in a domain whose operations describe its states as `Semantics`
  -- says, over an order that covers the nodes and the edges of its graph as `IsOrder` says,
  -- returns without a failed assertion, then for every state that an execution from the first
  -- ones brings to a node: the node's invariants hold the state and what its instruction makes of
  -- it, and its assertions hold of the state, those of a loop counter if termination was checked.
  pub run-Verified :
      (fuel : ℕ) (wto : WtoPartition) (check : Bool) (inv : d.Value) (s : Analysis d.Value)
      → IsOrder prog wto
      → run d fuel prog wto check inv ≡ ok s
      → s.failed ≡ false
      → (u : Label) (x : sem.State) → Reaches d sem prog (Initial d sem prog check wto inv) u x
      → Verified check s u x
  unfolding run set_pre
  run-Verified fuel wto check inv s o e calm u x r = IfOk-value e whole calm u x r
    where
      whole :
          IfOk
            (λ s.
              s.failed ≡ false
              → (u : Label) (x : sem.State)
              → Reaches d sem prog (Initial d sem prog check wto inv) u x
              → Verified check s u x)
            (run d fuel prog wto check inv)
      whole = IfOk-bind (counted d check wto inv) λ v ev.
          IfOk-bind (set_pair (start d prog) entry (with_pre v)) λ s1 e1.
            IfOk-bind (visit_all d fuel prog wto wto s1) λ s2 e2.
              finished check s2 (Initial d sem prog check wto inv) (
                IfOk-value (ap (λ c. visit_all d fuel prog wto c s1) (sym o.wto-cons) ∙ e2) (
                  visited fuel wto v s1 (Initial d sem prog check wto inv) o
                    (λ y (v', e', k). subst (λ w. sem.Denotes w y) (ok-injective (sym e' ∙ ev)) k)
                    (IfOk-value e1 (set_pair-SetTo (start d prog) entry (with_pre v)))))
