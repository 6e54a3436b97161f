-- ===== src/Analyzer/Counter/Laws.antt =====
-- The analysis of one loop counter by intervals: the iterator of src/fwd_analyzer.cpp over the operations
-- of src/crab/interval.cpp.
use prevail.Prelude.{
  ◌≡◌, refl, sym, ◌∙◌, true, false, not, ◌&&◌, ◌||◌, inl, inr, Bool-cases, if◌then◌else◌, arith,
}
use prevail.Prelude.Int.{ℤ, pos, ◌+ℤ◌, ◌≤ℤ◌}
use prevail.Prelude.Result.{Result, ok, err, Returns, returns}
use mathlib.Core.Path.{subst}
use prevail.Prelude.Fuel.{Fueled, returned, failed, bind-Fueled, if-Fueled}
use prevail.Arith.Extended
use prevail.Arith.Extended.{Bound, IsNormal, number_of, plus_inf, minus_inf, finite}
use prevail.Cfg.Label.{Label}
use prevail.Crab.Interval
use prevail.Crab.Interval.{Interval, contains, of_number}
use prevail.Crab.Interval.Members.{
  IsValid, contains-interval, contains-lb, contains-ub, not-is_bottom,
}
use prevail.Crab.Interval.Lattice.{le-contains, le-join, contains-meet}
use prevail.Crab.Interval.Widening.{rank, rank-le-three, rank-widen-lt}
use prevail.Crab.Interval.Sums.{Holds, add-Holds}
use prevail.Ir.Syntax.{Instruction, Assertion}
use prevail.Ir.Program.{Program}
use prevail.Analyzer.Semantics.{Semantics}
use prevail.Analyzer.Pairs.{ok-injective}
use prevail.Arith.Extended.Order.{le_trans}
use prevail.Analyzer.Ends.{Ranked}
use prevail.Analyzer.Counter.{
  CounterValue, limit, one, one-IsValid, increment, with_validity, counts, limits, exceeds, counter,
}

pub narrow-contains :
    (i x : Interval) (n : ℤ)
    → contains i n ≡ true
    → contains x n ≡ true
    → contains (Interval.narrow i x) n ≡ true
unfolding Interval.narrow
narrow-contains i x n a b =
    let nonempty : (Interval.is_bottom i || Interval.is_bottom x) ≡ false =
      ground (arith, not-is_bottom i n a, not-is_bottom x n b) in
    rw (nonempty, contains-interval _ _ n)
      (ground (arith, contains-lb i n a, contains-lb x n b, contains-ub i n a, contains-ub x n b))

-- The value of the counter after an instruction.
abbrev pub counted_by : Label → Instruction → ℤ → ℤ
counted_by h i x = if counts h i then x +ℤ pos 1 else x

-- A value that the checks on the counter allow.
abbrev pub Allowed : Label → Assertion → ℤ → Type 0
Allowed h a x = limits h a ≡ true → x ≤ℤ limit

increments :
    (r : Result Interval) (valid : (i : Interval) → r ≡ ok i → IsValid i) (w : CounterValue) (n : ℤ)
    → with_validity r valid ≡ ok w
    → Returns (Holds n) r
    → contains w.0 n ≡ true
increments (err e') valid w n e k = elim k [ ]
increments (ok i) valid w n e (returns k) = subst (λ u. contains u.0 n ≡ true) (ok-injective e) k.1

one-Holds : Holds (pos 1) one
unfolding contains Interval.is_bottom Extended.gt Extended.le
one-Holds = (one-IsValid, refl)

sum-Fueled : (b x : Bound) → Fueled (Extended.add b x)
unfolding Extended.add
sum-Fueled b x =
    if-Fueled (Extended.is_finite b) _ _ (if-Fueled (Extended.is_finite x) _ _ returned returned)
      (if-Fueled _ _ _ returned (failed refl))

add-Fueled : (i x : Interval) → Fueled (Interval.add i x)
unfolding Interval.add
add-Fueled i x =
    if-Fueled (Interval.is_bottom i || Interval.is_bottom x) _ _ returned
      (bind-Fueled (sum-Fueled i.lb x.lb) λ l. bind-Fueled (sum-Fueled i.ub x.ub) λ u. returned)

with_validity-Fueled :
    (r : Result Interval) (valid : (i : Interval) → r ≡ ok i → IsValid i)
    → Fueled r
    → Fueled (with_validity r valid)
with_validity-Fueled (ok i) valid h = returned
with_validity-Fueled (err e) valid (failed k) = failed k

increment-Fueled : (v : CounterValue) → Fueled (increment v)
unfolding increment
increment-Fueled v = with_validity-Fueled (Interval.add v.0 one) _ (add-Fueled v.0 one)

module _ (h : Label) where
  pub exceeds-le :
      (v : CounterValue) (x : ℤ) → exceeds v ≡ false → contains v.0 x ≡ true → x ≤ℤ limit
  unfolding exceeds Extended.le contains
  exceeds-le v x e c =
      let below = le_trans (finite x) v.0.ub (finite limit) (contains-ub v.0 x c) in
      ground (arith, not-is_bottom v.0 x c, below)

  pub transform-contains :
      (a b : CounterValue) (i : Instruction) (x : ℤ)
      → (counter h).transform a i ≡ ok b
      → contains a.0 x ≡ true
      → contains b.0 (counted_by h i x) ≡ true
  unfolding increment
  transform-contains a b i x e c =
      let full = not-is_bottom a.0 x c in
      elim (Bool-cases (counts h i)) [
        | inl k ↦ rw k (
            increments (Interval.add a.0 one) _ b _ (rw (k, full) at e)
              (add-Holds x (pos 1) (a.1, c) one-Holds))
        | inr k ↦ rw k (subst (λ u. contains u.0 x ≡ true) (ok-injective (rw k at e)) c)
      ]

  abbrev pub counting : Semantics (counter h)
  counting = record {
    State = ℤ;
    Step = λ i x y. y ≡ counted_by h i x;
    Holds = λ a l x. Allowed h a x;
    Denotes = λ v x. contains v.0 x ≡ true;
    le-Denotes = λ a b x e c. le-contains a.0 b.0 x e c;
    join-left = λ a b x c. le-contains a.0 _ x (le-join a.0 b.0 a.1 b.1).0 c;
    join-right = λ a b x c. le-contains b.0 _ x (le-join a.0 b.0 a.1 b.1).1 c;
    meet-Denotes = λ a b x c e. contains-meet a.0 b.0 x a.1 b.1 ∙ ground (arith, c, e);
    narrow-Denotes = λ a b x c e. narrow-contains a.0 b.0 x c e;
    transform-Denotes = λ a b i x y e c step.
        subst (λ z. contains b.0 z ≡ true) (sym step) (transform-contains a b i x e c);
    fails-Holds = λ v a l x e c lim. exceeds-le v x (ground (arith, ok-injective e, lim)) c;
    is_bottom-empty = λ v x e c. ground (arith, not-is_bottom v.0 x c, e);
  }

  pub three_ranks : Ranked (counter h) 3
  three_ranks = record {
    answers = record {
      transform-Fueled = λ v i.
          if-Fueled (counts h i && not (Interval.is_bottom v.0)) _ _ (increment-Fueled v) returned;
      fails-Fueled = λ v a l. returned;
    };
    rank = λ v. rank v.0;
    rank-le = λ v. rank-le-three v.0;
    rank-widen = λ v w e. elim (rank-widen-lt v.0 w.0 v.1 w.1) [
      | inl t ↦ absurd (ground (arith, t, e))
      | inr below ↦ below
    ];
  }
