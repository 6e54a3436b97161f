-- ===== src/Crab/Interval/Divide.antt =====
-- The divisions and remainders of src/crab/interval.cpp. A call on an interval that contains 0 calls
-- itself on the parts below and above 0, first of the divisor and then of the dividend. The fuel
-- counts the depth of the calls: two splits and a call that does not split.
pub mod Errors
pub mod Fuel
pub mod Positive
use prevail.Prelude.{ℕ, zero, suc, not, ◌&&◌, ◌||◌, Option, none, some, if◌then◌else◌}
use prevail.Prelude.Int.{pos, negsuc, neg_ℤ, ◌-ℤ◌, ◌%ℤ◌, ltb_ℤ, eqb_ℤ}
use prevail.Prelude.Result.{Result, ok, err, ◌>>=◌, out_of_fuel}
use prevail.Arith.Number
use prevail.Arith.Number.{Number, sint, uint, fits_cast_to, cast_to}
use prevail.Arith.Extended
use prevail.Arith.Extended.{Bound, finite, is_finite}
use prevail.Crab.Interval.{
  Interval, bottom, top, interval, of_number, is_bottom, contains, singleton, pair_number, join,
  add, sub, minmax,
}

abbrev zero_bound : Bound
zero_bound = finite (pos 0)

-- `Interval{x._lb, -1}` and `Interval{1, x._ub}`
abbrev pub below_zero : Interval → Interval
below_zero i = interval i.lb (finite (negsuc 0))

abbrev pub above_zero : Interval → Interval
above_zero i = interval (finite (pos 1)) i.ub

unfoldable pub make_dividend_when_both_nonzero : Interval → Interval → Result Interval
make_dividend_when_both_nonzero dividend divisor =
    if Extended.ge dividend.ub zero_bound
    then ok dividend
    else if Extended.lt divisor.ub zero_bound
    then (do s ← add dividend divisor; add s (of_number (pos 1)))
    else (do s ← add dividend (of_number (pos 1)); sub s divisor)

-- The least and the greatest quotient of the ends.
unfoldable pub quotients : (Bound → Bound → Result Bound) → Interval → Interval → Result Interval
quotients op a x = do
  p ← op a.lb x.lb
  q ← op a.lb x.ub
  r ← op a.ub x.lb
  s ← op a.ub x.ub
  ok (minmax p q r s)

-- The last three branches, which the three divisions share; `again` is the division itself.
unfoldable pub split_division :
    (Bound → Bound → Result Bound)
    → (Interval → Interval → Result Interval)
    → Interval
    → Interval
    → Result Interval
split_division op again i x =
    if contains x (pos 0)
    then (do
      l ← again i (below_zero x)
      u ← again i (above_zero x)
      ok (join (join l u) (of_number (pos 0))))
    else if contains i (pos 0)
    then (do
      l ← again (below_zero i) x
      u ← again (above_zero i) x
      ok (join (join l u) (of_number (pos 0))))
    else do a ← make_dividend_when_both_nonzero i x; quotients op a x

-- `Interval{_lb / c, _ub / c}`
unfoldable pub divide_ends :
    (Bound → Bound → Result Bound) → Bound → Bound → Number → Result Interval
divide_ends op l u c = do l' ← op l (finite c); u' ← op u (finite c); ok (interval l' u')

-- `operator/` by a single number
unfoldable pub div_singleton : Interval → Number → Result Interval
div_singleton i c =
    if eqb_ℤ c (pos 1)
    then ok i
    else if ltb_ℤ (pos 0) c
    then divide_ends Extended.div i.lb i.ub c
    else if ltb_ℤ c (pos 0)
    then divide_ends Extended.div i.ub i.lb c
    else ok (of_number (pos 0))

-- `operator/`
unfoldable pub div : ℕ → Interval → Interval → Result Interval
div zero i x = err out_of_fuel
div (suc fuel) i x =
    let rest = split_division Extended.div (div fuel) i x in
    if is_bottom i || is_bottom x
    then ok bottom
    else elim (singleton x) [ some c ↦ div_singleton i c | none ↦ rest ]

-- `sdiv` by a single number that fits in 64 bits
unfoldable pub sdiv_singleton : Interval → Number → Result Interval
sdiv_singleton i n = do
  c ← cast_to (sint 64) n
  if eqb_ℤ c (pos 1)
      then ok i
      else if not (eqb_ℤ c (pos 0))
      then divide_ends Extended.div i.lb i.ub c
      else ok (of_number (pos 0))

unfoldable pub sdiv : ℕ → Interval → Interval → Result Interval
sdiv zero i x = err out_of_fuel
sdiv (suc fuel) i x =
    let rest = split_division Extended.div (sdiv fuel) i x in
    if is_bottom i || is_bottom x then ok bottom else elim (singleton x) [
      | some n ↦ if fits_cast_to (sint 64) n then sdiv_singleton i n else rest
      | none ↦ rest
    ]

-- `udiv` by a single number that fits in 64 bits
unfoldable pub udiv_singleton : Interval → Number → Result Interval
udiv_singleton i n = do
  c ← cast_to (uint 64) n
  if eqb_ℤ c (pos 1)
      then ok i
      else if ltb_ℤ (pos 0) c
      then divide_ends Extended.udiv i.lb i.ub c
      else ok (of_number (pos 0))

unfoldable pub udiv : ℕ → Interval → Interval → Result Interval
udiv zero i x = err out_of_fuel
udiv (suc fuel) i x =
    let rest = split_division Extended.udiv (udiv fuel) i x in
    if is_bottom i || is_bottom x then ok bottom else elim (singleton x) [
      | some n ↦ if fits_cast_to (sint 64) n then udiv_singleton i n else rest
      | none ↦ rest
    ]

abbrev min_number : Number → Number → Number
min_number a b = if ltb_ℤ b a then b else a

abbrev max_number : Number → Number → Number
max_number a b = if ltb_ℤ b a then a else b

-- `srem` by a divisor with two finite ends that does not contain 0
unfoldable pub srem_finite : Interval → Number → Number → Interval
srem_finite i xlb xub =
    let least = min_number (Number.abs xlb) (Number.abs xub) in
    let greatest = max_number (Number.abs xlb) (Number.abs xub) in
    let most = greatest -ℤ pos 1 in
    if Extended.lt i.ub (finite least) && Extended.lt (Extended.neg i.lb) (finite least)
    then i
    else if Extended.lt i.lb zero_bound
    then (if Extended.gt i.ub zero_bound
        then interval (finite (neg_ℤ most)) (finite most)
        else interval (finite (neg_ℤ most)) zero_bound)
    else interval zero_bound (finite most)

-- A single number by a single number.
unfoldable pub srem_singletons : Option Number → Option Number → Option (Result Interval)
srem_singletons (some n) (some d) =
    some (if eqb_ℤ d (pos 0) then ok (of_number n) else ok (of_number (n %ℤ d)))
srem_singletons _ _ = none

unfoldable pub srem : ℕ → Interval → Interval → Result Interval
srem zero i x = err out_of_fuel
srem (suc fuel) i x =
    let parts : Result Interval = (do
      l ← srem fuel i (below_zero x)
      u ← srem fuel i (above_zero x)
      ok (join (join l u) i)) in
    let rest =
      if contains x (pos 0)
      then parts
      else if is_finite x.ub && is_finite x.lb
      then (do (xlb, xub) ← pair_number x; ok (srem_finite i xlb xub))
      else ok (join i (of_number (pos 0))) in
    if is_bottom i || is_bottom x
    then ok bottom
    else elim (srem_singletons (singleton i) (singleton x)) [ some r ↦ r | none ↦ rest ]

-- A single number by a single number, where both fit in 64 bits.
unfoldable pub urem_singletons : Option Number → Option Number → Option (Result Interval)
urem_singletons (some n) (some d) =
    if fits_cast_to (uint 64) n && fits_cast_to (uint 64) d
    then some (
        if eqb_ℤ d (pos 0) then ok (of_number n) else do
          dividend ← cast_to (uint 64) n
          divisor ← cast_to (uint 64) d
          ok (of_number (dividend %ℤ divisor)))
    else none
urem_singletons _ _ = none

-- `urem` where neither contains 0
unfoldable pub urem_nonzero : Interval → Interval → Result Interval
urem_nonzero i x =
    let by_divisor : Result Interval = (do
      greatest ← cast_to (uint 64) x.ub.n
      ok (interval zero_bound (finite (greatest -ℤ pos 1)))) in
    if x.lb.is_infinite || x.ub.is_infinite
    then (if Extended.lt i.ub zero_bound
        then ok top
        else do s ← sub i (of_number (pos 1)); ok (join s (of_number (pos 0))))
    else if is_finite i.ub
    then (do
      dividend ← cast_to (uint 64) i.ub.n
      divisor ← cast_to (uint 64) x.lb.n
      if ltb_ℤ dividend divisor then ok i else by_divisor)
    else by_divisor

unfoldable pub urem : ℕ → Interval → Interval → Result Interval
urem zero i x = err out_of_fuel
urem (suc fuel) i x =
    let divisor_parts : Result Interval = (do
      l ← urem fuel i (below_zero x)
      u ← urem fuel i (above_zero x)
      ok (join (join l u) i)) in
    let dividend_parts : Result Interval = (do
      l ← urem fuel (below_zero i) x
      u ← urem fuel (above_zero i) x
      ok (join (join l u) i)) in
    let rest =
      if contains x (pos 0)
      then divisor_parts
      else if contains i (pos 0)
      then dividend_parts
      else urem_nonzero i x in
    if is_bottom i || is_bottom x
    then ok bottom
    else elim (urem_singletons (singleton i) (singleton x)) [ some r ↦ r | none ↦ rest ]
