-- ===== src/Crab/Interval.antt =====
-- `class Interval` of src/crab/interval.hpp: the constructors, the tests, the lattice operations,
-- sums, and the product of src/crab/interval.cpp. Divisions are in Interval/Divide.antt, bitwise
-- operations and extensions in Interval/Bits.antt.
pub mod Members
pub mod Lattice
pub mod Widening
pub mod Narrowing
pub mod Divide
pub mod Bits
pub mod Ranges
pub mod Extend
pub mod Shifts
pub mod Sums
pub mod Operations
pub mod Products
use prevail.Prelude.{Bool, true, false, not, ◌&&◌, ◌||◌, Option, none, some, if◌then◌else◌}
use prevail.Prelude.Int.{ℤ, pos, negsuc}
use prevail.Prelude.Result.{Result, ok, err, ◌>>=◌, bottom_pair, no_value}
use prevail.Arith.Number.{Number, IntType}
use prevail.Arith.Extended
use prevail.Arith.Extended.{Bound, finite, plus_infinity, minus_infinity, is_finite}

pub record Interval : Type 0 where
  pub lb : Bound
  pub ub : Bound

-- What the private constructor gives: [0, -1].
abbrev pub bottom : Interval
bottom = record { lb = finite (pos 0); ub = finite (negsuc 0) }

abbrev pub top : Interval
top = record { lb = minus_infinity; ub = plus_infinity }

-- `Interval{lb, ub}`: ends in the wrong order give bottom.
unfoldable pub interval : Bound → Bound → Interval
interval l u = record {
  lb = if Extended.gt l u then finite (pos 0) else l;
  ub = if Extended.gt l u then finite (negsuc 0) else u;
}

-- `Interval{b}`: an infinite bound gives bottom.
unfoldable pub of_bound : Bound → Interval
of_bound b = record {
  lb = if b.is_infinite then finite (pos 0) else b;
  ub = if b.is_infinite then finite (negsuc 0) else b;
}

-- `Interval{n}`
abbrev pub of_number : Number → Interval
of_number n = record { lb = finite n; ub = finite n }

unfoldable pub is_bottom : Interval → Bool
is_bottom i = Extended.gt i.lb i.ub

unfoldable pub is_top : Interval → Bool
is_top i = i.lb.is_infinite && i.ub.is_infinite

unfoldable pub eq : Interval → Interval → Bool
eq i x = if is_bottom i then is_bottom x else Extended.eq i.lb x.lb && Extended.eq i.ub x.ub

-- `operator<=`: inclusion.
unfoldable pub le : Interval → Interval → Bool
le i x =
    if is_bottom i
    then true
    else if is_bottom x
    then false
    else Extended.le x.lb i.lb && Extended.le i.ub x.ub

-- `operator|`
unfoldable pub join : Interval → Interval → Interval
join i x =
    if is_bottom i
    then x
    else if is_bottom x
    then i
    else interval (Extended.min i.lb x.lb) (Extended.max i.ub x.ub)

-- `operator&`
unfoldable pub meet : Interval → Interval → Interval
meet i x =
    if is_bottom i || is_bottom x
    then bottom
    else interval (Extended.max i.lb x.lb) (Extended.min i.ub x.ub)

unfoldable pub widen : Interval → Interval → Interval
widen i x =
    if is_bottom i
    then x
    else if is_bottom x
    then i
    else interval (if Extended.lt x.lb i.lb then minus_infinity else i.lb)
        (if Extended.lt i.ub x.ub then plus_infinity else i.ub)

unfoldable pub narrow : Interval → Interval → Interval
narrow i x =
    if is_bottom i || is_bottom x
    then bottom
    else interval (if i.lb.is_infinite && is_finite x.lb then x.lb else i.lb)
        (if i.ub.is_infinite && is_finite x.ub then x.ub else i.ub)

-- `operator+`, unary and binary `operator-`
unfoldable pub add : Interval → Interval → Result Interval
add i x =
    if is_bottom i || is_bottom x
    then ok bottom
    else do l ← Extended.add i.lb x.lb; u ← Extended.add i.ub x.ub; ok (interval l u)

unfoldable pub neg : Interval → Interval
neg i = if is_bottom i then bottom else interval (Extended.neg i.ub) (Extended.neg i.lb)

unfoldable pub sub : Interval → Interval → Result Interval
sub i x =
    if is_bottom i || is_bottom x
    then ok bottom
    else do l ← Extended.sub i.lb x.ub; u ← Extended.sub i.ub x.lb; ok (interval l u)

-- std::minmax of four bounds
unfoldable pub min_of : Bound → Bound → Bound → Bound → Bound
min_of a b c d = Extended.min (Extended.min (Extended.min a b) c) d

unfoldable pub max_of : Bound → Bound → Bound → Bound → Bound
max_of a b c d = Extended.max (Extended.max (Extended.max a b) c) d

abbrev pub minmax : Bound → Bound → Bound → Bound → Interval
minmax a b c d = interval (min_of a b c d) (max_of a b c d)

-- `operator*`
unfoldable pub mul : Interval → Interval → Interval
mul i x =
    if is_bottom i || is_bottom x
    then bottom
    else minmax (Extended.mul i.lb x.lb) (Extended.mul i.lb x.ub) (Extended.mul i.ub x.lb)
        (Extended.mul i.ub x.ub)

unfoldable pub finite_size : Interval → Result (Option Number)
finite_size i = do d ← Extended.sub i.ub i.lb; ok (Extended.number d)

unfoldable pub size : Interval → Result Bound
size i =
    if is_bottom i
    then ok (finite (pos 0))
    else do d ← Extended.sub i.ub i.lb; Extended.add d (finite (pos 1))

unfoldable pub is_singleton : Interval → Bool
is_singleton i = Extended.eq i.lb i.ub

unfoldable pub singleton : Interval → Option Number
singleton i = if is_singleton i then Extended.number i.lb else none

unfoldable pub contains : Interval → Number → Bool
contains i n =
    if is_bottom i then false else Extended.le i.lb (finite n) && Extended.le (finite n) i.ub

-- `number().value()` of both ends
abbrev values : Option Number → Option Number → Result (Number × Number)
values (some l) (some u) = ok (l, u)
values _ _ = err no_value

unfoldable pub pair_number : Interval → Result (Number × Number)
pair_number i = values (Extended.number i.lb) (Extended.number i.ub)

-- `bound<T>(lb, ub)`: this interval cut to a range, as two machine integers.
unfoldable pub bound : IntType → Number → Number → Interval → Result (ℤ × ℤ)
bound t l u i =
    let b = meet (interval (finite l) (finite u)) i in
    if is_bottom b
    then err bottom_pair
    else do l' ← Extended.narrow t b.lb; u' ← Extended.narrow t b.ub; ok (l', u')
