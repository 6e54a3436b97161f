-- ===== src/Arith/Extended.antt =====
-- `class ExtendedNumber` (`Bound`) of src/arith/num_extended.hpp: a number, or an infinity whose
-- sign is that of `n`. An operation that reaches `CRAB_ERROR` gives an error.
pub mod Order
pub mod Sum
pub mod Product
use prevail.Prelude.{ℕ, Bool, true, false, not, ◌&&◌, ◌||◌, Option, none, some, if◌then◌else◌}
use prevail.Prelude.Int.{ℤ, pos, negsuc, ◌+ℤ◌, ◌*ℤ◌, neg_ℤ, ◌/ℤ◌, ◌%ℤ◌, leb_ℤ, ltb_ℤ, eqb_ℤ}
use prevail.Prelude.Result.{
  Result, ok, err, ◌>>=◌, undefined_sum, division_by_zero, infinite_quotient, infinite_extension,
  infinite_narrow,
}
use prevail.Arith.CppInt.{CppInt}
use prevail.Arith.Number
use prevail.Arith.Number.{Number, IntType, uint}

pub record Bound : Type 0 where
  pub is_infinite : Bool
  pub n : Number

-- The private constructor: an infinity is kept as 1 or -1.
unfoldable pub make : Bool → Number → Bound
make inf n =
    if inf
    then record { is_infinite = true; n = if ltb_ℤ (pos 0) n then pos 1 else negsuc 0 }
    else record { is_infinite = false; n = n }

abbrev pub finite : Number → Bound
finite n = record { is_infinite = false; n = n }

-- What `make true 1` and `make true -1` give.
abbrev pub plus_infinity : Bound
plus_infinity = record { is_infinite = true; n = pos 1 }

abbrev pub minus_infinity : Bound
minus_infinity = record { is_infinite = true; n = negsuc 0 }

abbrev pub is_finite : Bound → Bool
is_finite b = not b.is_infinite

unfoldable pub is_plus_infinity : Bound → Bool
is_plus_infinity b = b.is_infinite && ltb_ℤ (pos 0) b.n

unfoldable pub is_minus_infinity : Bound → Bool
is_minus_infinity b = b.is_infinite && ltb_ℤ b.n (pos 0)

unfoldable pub narrow : IntType → Bound → Result ℤ
narrow t b = if b.is_infinite then err infinite_narrow else Number.narrow t b.n

unfoldable pub neg : Bound → Bound
unfolding make neg_ℤ
neg b = make b.is_infinite (neg_ℤ b.n)

unfoldable pub add : Bound → Bound → Result Bound
unfolding ◌+ℤ◌
add b x =
    if is_finite b
    then (if is_finite x then ok (finite (b.n +ℤ x.n)) else ok x)
    else if is_finite x || eqb_ℤ x.n b.n
    then ok b
    else err undefined_sum

unfoldable pub sub : Bound → Bound → Result Bound
sub b x = add b (neg x)

unfoldable pub mul : Bound → Bound → Bound
unfolding make ◌*ℤ◌
mul b x =
    if eqb_ℤ x.n (pos 0)
    then x
    else if eqb_ℤ b.n (pos 0)
    then b
    else make (b.is_infinite || x.is_infinite) (b.n *ℤ x.n)

unfoldable pub abs_div : Bound → Bound → (Number → Number → Result Bound) → Result Bound
abs_div b x f =
    if eqb_ℤ x.n (pos 0)
    then err division_by_zero
    else if x.is_infinite
    then (if b.is_infinite then err infinite_quotient else ok (finite (pos 0)))
    else if b.is_infinite
    then ok b
    else f b.n x.n

abbrev lift : Result Number → Result Bound
lift r = r >>= λ n. ok (finite n)

unfoldable pub div : Bound → Bound → Result Bound
div b x = abs_div b x (λ dividend divisor. lift (Number.div dividend divisor))

unfoldable pub rem : Bound → Bound → Result Bound
rem b x = abs_div b x (λ dividend divisor. lift (Number.rem dividend divisor))

-- `n >= 0 ? n : Number{n.cast_to<uint64_t>()}`
unfoldable pub as_unsigned : Number → Result Number
as_unsigned n = if leb_ℤ (pos 0) n then ok n else Number.cast_to (uint 64) n

unfoldable pub udiv : Bound → Bound → Result Bound
udiv b x =
    abs_div b x λ dividend divisor. do
      d ← as_unsigned dividend
      e ← as_unsigned divisor
      lift (Number.div d e)

unfoldable pub urem : Bound → Bound → Result Bound
urem b x =
    abs_div b x λ dividend divisor. do
      d ← as_unsigned dividend
      e ← as_unsigned divisor
      lift (Number.rem d e)

-- `operator<=`, `operator>=`; the strict ones are their negations.
unfoldable pub le : Bound → Bound → Bool
le b x =
    if b.is_infinite
    then (if x.is_infinite then leb_ℤ b.n x.n else ltb_ℤ b.n (pos 0))
    else if x.is_infinite
    then ltb_ℤ (pos 0) x.n
    else leb_ℤ b.n x.n

unfoldable pub ge : Bound → Bound → Bool
ge b x =
    if b.is_infinite
    then (if x.is_infinite then leb_ℤ x.n b.n else ltb_ℤ (pos 0) b.n)
    else if x.is_infinite
    then ltb_ℤ x.n (pos 0)
    else leb_ℤ x.n b.n

unfoldable pub lt : Bound → Bound → Bool
lt b x = not (ge b x)

unfoldable pub gt : Bound → Bound → Bool
gt b x = not (le b x)

unfoldable pub eq : Bound → Bound → Bool
eq b x = (if b.is_infinite then x.is_infinite else not x.is_infinite) && eqb_ℤ b.n x.n

unfoldable pub abs : Bound → Bound
abs b = if ge b (finite (pos 0)) then b else neg b

unfoldable pub number : Bound → Option Number
number b = if b.is_infinite then none else some b.n

-- std::min and std::max
unfoldable pub min : Bound → Bound → Bound
min b x = if lt x b then x else b

unfoldable pub max : Bound → Bound → Bound
max b x = if lt b x then x else b

module _ (C : CppInt) where
  unfoldable pub sign_extend : ℕ → Bound → Result Number
  sign_extend w b =
      if b.is_infinite then err infinite_extension else ok (Number.sign_extend C w b.n)

  unfoldable pub zero_extend : ℕ → Bound → Result Number
  zero_extend w b =
      if b.is_infinite then err infinite_extension else ok (Number.zero_extend C w b.n)

-- What the constructors build: an infinity has 1 or -1 for its `_n`.
pub data IsNormal : Bound → Type 0 where
  minus_inf : IsNormal minus_infinity
  number_of : (n : Number) → IsNormal (finite n)
  plus_inf : IsNormal plus_infinity
