-- ===== src/Tests/Intervals.antt =====
-- Intervals: the theorems at [1, 3], [-2, 5] and the intervals that widening makes of them.
use prevail.Prelude.{◌^◌, ◌≡◌, refl, true, ◌&&◌, ◌≤◌, [], ◌∷◌, arith}
use prevail.Prelude.Int.{pos, negsuc, ◌+ℤ◌, ◌-ℤ◌, ◌*ℤ◌, neg_ℤ}
use prevail.Prelude.Result.{Returns}
use prevail.Arith.Number
use prevail.Arith.Extended
use prevail.Arith.Extended.{Bound, finite, number_of, plus_inf, plus_infinity}
use prevail.Crab.Interval.{
  Interval, interval, is_bottom, contains, le, join, meet, widen, narrow, add, sub, neg, mul,
}
use prevail.Crab.Interval.Bits.{sign_extend, zero_extend}
use prevail.Crab.Interval.Members.{IsValid, interval-IsValid}
use prevail.Crab.Interval.Lattice.{contains-meet}
use prevail.Crab.Interval.Widening.{le-widen, changes, changes-le-three}
use prevail.Crab.Interval.Sums.{Holds}
use prevail.Crab.Interval.Products.{mul-Holds}
use prevail.Crab.Interval.Extend.{sign_extend-contains, zero_extend-contains}
use prevail.Crab.Interval.Bits.{shl}
use prevail.Crab.Interval.Shifts.{shl-Holds}
use prevail.Crab.Interval.Divide.{div, sdiv, udiv}
use prevail.Prelude.Fuel.{Fueled}
use prevail.Crab.Interval.Divide.Fuel.{divisions-Fueled}
use prevail.Crab.Interval.Divide.Positive.{div-Holds}
use prevail.Crab.Interval.Divide.{sdiv_singleton, divide_ends}
use prevail.Crab.Interval.{singleton, is_singleton}
use prevail.Crab.Interval.{of_number, bottom}
use prevail.Prelude.Result.{ok}
use prevail.Prelude.Int.{◌/ℤ◌}
use prevail.Arith.Extended.{minus_infinity}
use prevail.Arith.Number.Casts.{Represents, cast_to-Represents}
use prevail.Crab.Interval.Operations.{operations-IsValid, join-least, sums-Hold}
use prevail.Tests.Digits.{twos_complement}

abbrev small : Interval
small = interval (finite (pos 1)) (finite (pos 3))

abbrev wide : Interval
wide = interval (finite (negsuc 1)) (finite (pos 5))

abbrev upward : Interval
upward = interval (finite (negsuc 1)) plus_infinity

small-IsValid : IsValid small
small-IsValid = interval-IsValid (number_of (pos 1)) (number_of (pos 3))

wide-IsValid : IsValid wide
wide-IsValid = interval-IsValid (number_of (negsuc 1)) (number_of (pos 5))

upward-IsValid : IsValid upward
upward-IsValid = interval-IsValid (number_of (negsuc 1)) plus_inf

small-holds-two : contains small (pos 2) ≡ true
unfolding interval contains is_bottom Extended.gt Extended.le
small-holds-two = refl

wide-holds-minus-one : contains wide (negsuc 0) ≡ true
unfolding interval contains is_bottom Extended.gt Extended.le
wide-holds-minus-one = refl

small-le-wide : le small wide ≡ true
unfolding interval le is_bottom Extended.gt Extended.le
small-le-wide = refl

wide-le-upward : le wide upward ≡ true
unfolding interval le is_bottom Extended.gt Extended.le
wide-le-upward = refl

small-le-upward : le small upward ≡ true
unfolding interval le is_bottom Extended.gt Extended.le
small-le-upward = refl

mul-Holds_example : Holds (pos 2 *ℤ negsuc 0) (mul small wide)
mul-Holds_example =
    mul-Holds (pos 2) (negsuc 0) (small-IsValid, small-holds-two)
      (wide-IsValid, wide-holds-minus-one)

sign_extend-contains_example :
    Returns
      (λ r. contains r (Number.sign_extend twos_complement 8 (negsuc 0)) ≡ true)
      (sign_extend twos_complement 8 wide)
sign_extend-contains_example =
    sign_extend-contains twos_complement 8 wide (negsuc 0) (omega arith) wide-IsValid
      wide-holds-minus-one

zero_extend-contains_example :
    Returns
      (λ r. contains r (Number.zero_extend twos_complement 8 (negsuc 0)) ≡ true)
      (zero_extend twos_complement 8 wide)
zero_extend-contains_example =
    zero_extend-contains twos_complement 8 wide (negsuc 0) (omega arith) wide-IsValid
      wide-holds-minus-one

contains-meet_example :
    contains (meet small wide) (pos 2) ≡ (contains small (pos 2) && contains wide (pos 2))
contains-meet_example = contains-meet small wide (pos 2) small-IsValid wide-IsValid

le-widen_example : (le small (widen small wide) ≡ true) × (le wide (widen small wide) ≡ true)
le-widen_example = le-widen small wide small-IsValid wide-IsValid

changes-le-three_example : changes small (wide ∷ upward ∷ []) ≤ 3
changes-le-three_example =
    changes-le-three small (wide ∷ upward ∷ []) small-IsValid (wide-IsValid, (upward-IsValid, tt))

abbrev one_two : Interval
one_two = interval (finite (pos 1)) (finite (pos 2))

one_two-holds-one : contains one_two (pos 1) ≡ true
unfolding interval contains is_bottom Extended.gt Extended.le
one_two-holds-one = refl

shl-Holds_example : Returns (Holds (pos 2 *ℤ pos (2 ^ 1))) (shl small one_two)
shl-Holds_example =
    shl-Holds (pos 2) 1 (small-IsValid, small-holds-two)
      (interval-IsValid (number_of (pos 1)) (number_of (pos 2)), one_two-holds-one)

divisions-Fueled_example :
    Fueled (div 3 wide wide) × Fueled (sdiv 3 wide wide) × Fueled (udiv 3 wide wide)
divisions-Fueled_example = divisions-Fueled 0 wide wide

div-Holds_example : Returns (Holds (negsuc 0 /ℤ pos 2)) (div 3 wide (of_number (pos 2)))
div-Holds_example = div-Holds 2 (negsuc 0) 1 (wide-IsValid, wide-holds-minus-one)

-- The quotients of [2, 4] by -2 are lost.
sdiv-by_minus_two :
    sdiv 3 (interval (finite (pos 2)) (finite (pos 4))) (of_number (negsuc 1)) ≡ ok bottom
unfolding sdiv sdiv_singleton divide_ends interval is_bottom singleton is_singleton Extended.gt
    Extended.le Extended.eq Extended.number Extended.div Extended.abs_div Number.div Number.cast_to
    Number.fits_cast_to Number.fits ◌/ℤ◌
sdiv-by_minus_two = refl

minus_one-fits : Number.fits_cast_to (Number.uint 8) (negsuc 0) ≡ true
unfolding Number.fits_cast_to Number.fits
minus_one-fits = refl

cast_to-Represents_example :
    Returns (Represents (Number.uint 8) (negsuc 0)) (Number.cast_to (Number.uint 8) (negsuc 0))
cast_to-Represents_example =
    cast_to-Represents (Number.uint 8) (negsuc 0) (omega arith) minus_one-fits

operations-IsValid_example :
    IsValid (join small wide)
    × IsValid (meet small wide)
    × IsValid (widen small wide)
    × IsValid (narrow small wide)
operations-IsValid_example = operations-IsValid small wide small-IsValid wide-IsValid

join-least_example :
    (le small (join small wide) ≡ true)
    × (le wide (join small wide) ≡ true)
    × ((z : Interval) → le small z ≡ true → le wide z ≡ true → le (join small wide) z ≡ true)
join-least_example = join-least small wide small-IsValid wide-IsValid

sums-Hold_example :
    Returns (Holds (pos 2 +ℤ negsuc 0)) (add small wide)
    × Returns (Holds (pos 2 -ℤ negsuc 0)) (sub small wide)
    × Holds (neg_ℤ (pos 2)) (neg small)
sums-Hold_example =
    sums-Hold small wide (pos 2) (negsuc 0) (small-IsValid, small-holds-two)
      (wide-IsValid, wide-holds-minus-one)
