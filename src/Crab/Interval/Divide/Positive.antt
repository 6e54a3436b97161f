-- ===== src/Crab/Interval/Divide/Positive.antt =====
-- `operator/` of src/crab/interval.cpp by one positive number, and the quotients of the members.
use prevail.Prelude.{ℕ, zero, suc, ◌/◌, ◌≤◌, ◌≡◌, sym, ap, true, false, some, arith}
use prevail.Prelude.Int.{ℤ, pos, negsuc, ◌/ℤ◌, ◌≤ℤ◌, ltb_ℤ, eqb_ℤ}
use prevail.Prelude.Result.{Returns, returns, Returns-bind}
use prevail.Arith.Number
use prevail.Arith.Extended
use prevail.Arith.Extended.{Bound, finite, minus_inf, plus_inf, number_of}
use prevail.Arith.Extended.Sum.{LowerBound, UpperBound}
use native.Mathlib.Nat.{le-div_iff_mul-le, div-mul-le_self, div-one}
use mathlib.Core.Path.{subst}
use prevail.Crab.Interval.Shifts.{of_number-Holds}
use prevail.Crab.Interval.{Interval, of_number, singleton, is_singleton}
use prevail.Crab.Interval.Sums.{Holds, lower, upper, interval-Holds, neither_empty}
use prevail.Crab.Interval.Divide.{div, div_singleton, divide_ends}

quotient_mono : (a b m : ℕ) → a ≤ b → a / suc m ≤ b / suc m
quotient_mono a b m h = ground (
  arith,
  le-div_iff_mul-le {k = suc m} {x = a / suc m} {y = b} (omega arith),
  div-mul-le_self a (suc m),
)

/ℤ_mono : (a b : ℤ) (m : ℕ) → a ≤ℤ b → (a /ℤ pos (suc m)) ≤ℤ (b /ℤ pos (suc m))
unfolding ◌/ℤ◌
/ℤ_mono (pos a) (pos b) m h = ground (arith, quotient_mono a b m)
/ℤ_mono (negsuc a) (pos b) m h = ground arith
/ℤ_mono (negsuc a) (negsuc b) m h = ground (arith, quotient_mono (suc b) (suc a) m)
/ℤ_mono (pos a) (negsuc b) m h = ground arith

quotient_one : (n : ℤ) → n /ℤ pos 1 ≡ n
unfolding ◌/ℤ◌
quotient_one (pos a) = ap pos (div-one a)
quotient_one (negsuc a) = rw (div-one (suc a)) (ground arith)

nonzero : (m : ℕ) → eqb_ℤ (pos (suc m)) (pos 0) ≡ false
nonzero m = ground arith

div-LowerBound :
    {l : Bound} (n : ℤ) (m : ℕ)
    → LowerBound n l
    → Returns (LowerBound (n /ℤ pos (suc m))) (Extended.div l (finite (pos (suc m))))
unfolding Extended.div Extended.abs_div Number.div Extended.le
div-LowerBound n m (minus_inf, h) = rw (nonzero m) (returns (minus_inf, ground arith))
div-LowerBound n m (plus_inf, h) = ground arith
div-LowerBound n m (number_of a, h) =
    rw (nonzero m) (returns (number_of _, ground (arith, /ℤ_mono a n m)))

div-UpperBound :
    {u : Bound} (n : ℤ) (m : ℕ)
    → UpperBound n u
    → Returns (UpperBound (n /ℤ pos (suc m))) (Extended.div u (finite (pos (suc m))))
unfolding Extended.div Extended.abs_div Number.div Extended.le
div-UpperBound n m (minus_inf, h) = ground arith
div-UpperBound n m (plus_inf, h) = rw (nonzero m) (returns (plus_inf, ground arith))
div-UpperBound n m (number_of a, h) =
    rw (nonzero m) (returns (number_of _, ground (arith, /ℤ_mono n a m)))

divide_ends-Holds :
    {i : Interval} (n : ℤ) (m : ℕ)
    → Holds n i
    → Returns (Holds (n /ℤ pos (suc m))) (divide_ends Extended.div i.lb i.ub (pos (suc m)))
unfolding divide_ends
divide_ends-Holds n m h =
    Returns-bind (div-LowerBound n m (lower n h))
      λ l p. Returns-bind (div-UpperBound n m (upper n h)) λ u q. returns (interval-Holds _ p q)

not_one : (m : ℕ) → eqb_ℤ (pos (suc (suc m))) (pos 1) ≡ false
not_one m = ground arith

is_positive : (m : ℕ) → ltb_ℤ (pos 0) (pos (suc (suc m))) ≡ true
is_positive m = ground arith

div_singleton-Holds :
    {i : Interval} (n : ℤ) (m : ℕ)
    → Holds n i
    → Returns (Holds (n /ℤ pos (suc m))) (div_singleton i (pos (suc m)))
unfolding div_singleton
div_singleton-Holds {i} n zero h = returns (subst (λ q. Holds q i) (sym (quotient_one n)) h)
div_singleton-Holds n (suc m) h = rw (not_one m, is_positive m) (divide_ends-Holds n (suc m) h)

singleton-of_number : (n : ℤ) → singleton (of_number n) ≡ some n
unfolding singleton is_singleton Extended.eq Extended.number
singleton-of_number n = ground arith

-- The quotient of a valid interval with a member by a positive number, with fuel for at least one
-- call, returns a valid interval that holds the quotient of every member, rounded towards 0.
pub div-Holds :
    {i : Interval} (k : ℕ) (n : ℤ) (m : ℕ)
    → Holds n i
    → Returns (Holds (n /ℤ pos (suc m))) (div (suc k) i (of_number (pos (suc m))))
unfolding div
div-Holds {i} k n m h =
    rw (neither_empty n (pos (suc m)) h (of_number-Holds _), singleton-of_number (pos (suc m)))
      (div_singleton-Holds n m h)
