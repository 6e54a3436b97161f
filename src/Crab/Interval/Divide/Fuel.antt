-- ===== src/Crab/Interval/Divide/Fuel.antt =====
-- The fuel of the divisions of src/crab/interval.cpp.
use prevail.Prelude.{
  ℕ, suc, ◌≡◌, ◌∙◌, refl, sym, Option, some, none, Bool, true, false, ◌||◌, not, if◌then◌else◌,
  arith,
}
use prevail.Prelude.Int.{ℤ, pos, negsuc, eqb_ℤ, ltb_ℤ}
use prevail.Prelude.Result.{Result}
use prevail.Arith.Number.{sint, uint, fits_cast_to}
use prevail.Arith.Extended
use prevail.Arith.Extended.{Bound, finite, is_finite}
use prevail.Crab.Interval.{Interval, is_bottom, contains, singleton}
use prevail.Crab.Interval.Members.{contains-interval}
use prevail.Crab.Interval.Divide.{
  div, sdiv, udiv, split_division, quotients, divide_ends, div_singleton, sdiv_singleton,
  udiv_singleton, below_zero, above_zero,
}
use prevail.Crab.Interval.Divide.Errors.{
  cast_to-Fueled, ext_div-Fueled, ext_udiv-Fueled, dividend-Fueled,
}
use prevail.Prelude.Fuel.{returned, bind-Fueled, if-Fueled, Fueled}

below_zero-misses : (i : Interval) → contains (below_zero i) (pos 0) ≡ false
unfolding Extended.le
below_zero-misses i = ground (arith, contains-interval i.lb (finite (negsuc 0)) (pos 0))

above_zero-misses : (i : Interval) → contains (above_zero i) (pos 0) ≡ false
unfolding Extended.le
above_zero-misses i = ground (arith, contains-interval (finite (pos 1)) i.ub (pos 0))

if-with-Fueled :
    {A : Type 0} (t : Bool) (r s : Result A)
    → (t ≡ true → Fueled r)
    → (t ≡ false → Fueled s)
    → Fueled (if t then r else s)
if-with-Fueled true r s h k = h refl
if-with-Fueled false r s h k = k refl

true-false : {A : Type 0} → true ≡ false → A
true-false e = ground arith

-- The shared branches, for a division of bounds `op` and a division `again` with less fuel.
module _ (op : Bound → Bound → Result Bound) (op-Fueled : (b x : Bound) → Fueled (op b x)) where
  quotients-Fueled : (a x : Interval) → Fueled (quotients op a x)
  unfolding quotients
  quotients-Fueled a x = bind-Fueled (op-Fueled a.lb x.lb) λ p.
      bind-Fueled (op-Fueled a.lb x.ub)
        λ q. bind-Fueled (op-Fueled a.ub x.lb) λ r. bind-Fueled (op-Fueled a.ub x.ub) λ s. returned

  divide_ends-Fueled : (l u : Bound) (c : ℤ) → Fueled (divide_ends op l u c)
  unfolding divide_ends
  divide_ends-Fueled l u c =
      bind-Fueled (op-Fueled l (finite c)) λ p. bind-Fueled (op-Fueled u (finite c)) λ q. returned

  split-Fueled :
      (again : Interval → Interval → Result Interval) (i x : Interval)
      → (contains x (pos 0) ≡ true
          → (j : Interval) → contains j (pos 0) ≡ false
          → Fueled (again i j))
      → (contains x (pos 0) ≡ false
          → contains i (pos 0) ≡ true
          → (j : Interval) → contains j (pos 0) ≡ false
          → Fueled (again j x))
      → Fueled (split_division op again i x)
  unfolding split_division
  split-Fueled again i x h k =
      if-with-Fueled (contains x (pos 0)) _ _
        (λ e.
          bind-Fueled (h e (below_zero x) (below_zero-misses x))
            λ l. bind-Fueled (h e (above_zero x) (above_zero-misses x)) λ u. returned)
        λ e.
          if-with-Fueled (contains i (pos 0)) _ _
            (λ f.
              bind-Fueled (k e f (below_zero i) (below_zero-misses i))
                λ l. bind-Fueled (k e f (above_zero i) (above_zero-misses i)) λ u. returned)
            λ f. bind-Fueled (dividend-Fueled i x) λ a. quotients-Fueled a x

  -- A division that takes this step may call itself twice over.
  module _ (divide : ℕ → Interval → Interval → Result Interval)
      (step : (k : ℕ) (i x : Interval)
        → Fueled (split_division op (divide k) i x)
        → Fueled (divide (suc k) i x)) where
    neither_zero :
        (k : ℕ) (i x : Interval)
        → contains x (pos 0) ≡ false
        → contains i (pos 0) ≡ false
        → Fueled (divide (suc k) i x)
    neither_zero k i x hx hi = step k i x (
        split-Fueled (divide k) i x (λ e j m. true-false (sym e ∙ hx))
          λ e f j m. true-false (sym f ∙ hi))

    divisor_nonzero :
        (k : ℕ) (i x : Interval) → contains x (pos 0) ≡ false → Fueled (divide (suc (suc k)) i x)
    divisor_nonzero k i x hx = step (suc k) i x (
        split-Fueled (divide (suc k)) i x (λ e j m. true-false (sym e ∙ hx))
          λ e f j m. neither_zero k j x hx m)

    three_calls : (k : ℕ) (i x : Interval) → Fueled (divide (suc (suc (suc k))) i x)
    three_calls k i x = step (suc (suc k)) i x (
        split-Fueled (divide (suc (suc k))) i x (λ e j m. divisor_nonzero k i j m)
          λ e f j m. divisor_nonzero k j x e)

ends-Fueled : (l u : Bound) (c : ℤ) → Fueled (divide_ends Extended.div l u c)
ends-Fueled = divide_ends-Fueled Extended.div ext_div-Fueled

div_singleton-Fueled : (i : Interval) (c : ℤ) → Fueled (div_singleton i c)
unfolding div_singleton
div_singleton-Fueled i c = if-Fueled (eqb_ℤ c (pos 1)) _ _ returned (
    if-Fueled (ltb_ℤ (pos 0) c) _ _ (ends-Fueled i.lb i.ub c)
      (if-Fueled (ltb_ℤ c (pos 0)) _ _ (ends-Fueled i.ub i.lb c) returned))

sdiv_singleton-Fueled : (i : Interval) (c : ℤ) → Fueled (sdiv_singleton i c)
unfolding sdiv_singleton
sdiv_singleton-Fueled i n = bind-Fueled (cast_to-Fueled (sint 64) n) λ c.
    if-Fueled (eqb_ℤ c (pos 1)) _ _ returned
      (if-Fueled (not (eqb_ℤ c (pos 0))) _ _ (ends-Fueled i.lb i.ub c) returned)

udiv_singleton-Fueled : (i : Interval) (c : ℤ) → Fueled (udiv_singleton i c)
unfolding udiv_singleton
udiv_singleton-Fueled i n = bind-Fueled (cast_to-Fueled (uint 64) n) λ c.
    if-Fueled (eqb_ℤ c (pos 1)) _ _ returned (
      if-Fueled (ltb_ℤ (pos 0) c) _ _ (divide_ends-Fueled Extended.udiv ext_udiv-Fueled i.lb i.ub c)
        returned)

div-step :
    (k : ℕ) (i x : Interval)
    → Fueled (split_division Extended.div (div k) i x)
    → Fueled (div (suc k) i x)
unfolding div
div-step k i x h = if-Fueled (is_bottom i || is_bottom x) _ _ returned (by_count (singleton x))
  where
    by_count :
        (s : Option ℤ)
        → Fueled
            (elim s [ some c ↦ div_singleton i c | none ↦ split_division Extended.div (div k) i x ])
    by_count none = h
    by_count (some c) = div_singleton-Fueled i c

sdiv-step :
    (k : ℕ) (i x : Interval)
    → Fueled (split_division Extended.div (sdiv k) i x)
    → Fueled (sdiv (suc k) i x)
unfolding sdiv
sdiv-step k i x h = if-Fueled (is_bottom i || is_bottom x) _ _ returned (by_count (singleton x))
  where
    by_count :
        (s : Option ℤ)
        → Fueled (elim s [
          | some n ↦
              if fits_cast_to (sint 64) n
              then sdiv_singleton i n
              else split_division Extended.div (sdiv k) i x
          | none ↦ split_division Extended.div (sdiv k) i x
        ])
    by_count none = h
    by_count (some n) = if-Fueled (fits_cast_to (sint 64) n) _ _ (sdiv_singleton-Fueled i n) h

udiv-step :
    (k : ℕ) (i x : Interval)
    → Fueled (split_division Extended.udiv (udiv k) i x)
    → Fueled (udiv (suc k) i x)
unfolding udiv
udiv-step k i x h = if-Fueled (is_bottom i || is_bottom x) _ _ returned (by_count (singleton x))
  where
    by_count :
        (s : Option ℤ)
        → Fueled (elim s [
          | some n ↦
              if fits_cast_to (sint 64) n
              then udiv_singleton i n
              else split_division Extended.udiv (udiv k) i x
          | none ↦ split_division Extended.udiv (udiv k) i x
        ])
    by_count none = h
    by_count (some n) = if-Fueled (fits_cast_to (sint 64) n) _ _ (udiv_singleton-Fueled i n) h

-- For every two intervals, the three divisions run with three or more calls of fuel return an
-- interval or an error of the source, never for want of fuel: a division calls itself on the
-- parts of the divisor and then on those of the dividend, and no further.
pub divisions-Fueled :
    (k : ℕ) (i x : Interval)
    → Fueled (div (suc (suc (suc k))) i x)
      × Fueled (sdiv (suc (suc (suc k))) i x)
      × Fueled (udiv (suc (suc (suc k))) i x)
divisions-Fueled k i x = (
  three_calls Extended.div ext_div-Fueled div div-step k i x,
  three_calls Extended.div ext_div-Fueled sdiv sdiv-step k i x,
  three_calls Extended.udiv ext_udiv-Fueled udiv udiv-step k i x,
)
