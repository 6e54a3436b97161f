-- ===== src/Arith/SafeInt.antt =====
-- `class SafeI64` of src/arith/num_safeint.hpp: 64-bit integers whose operations report an overflow.
-- `WideInt` is a signed integer of 128 bits, which wraps around. The source does not test a divisor:
-- division by 0 is undefined there, and what it is here stands for nothing.
pub mod Exact
use prevail.Prelude.{Bool, Option, none, some, ◌||◌, if◌then◌else◌}
use prevail.Prelude.Int.{ℤ, pos, ◌+ℤ◌, ◌-ℤ◌, ◌*ℤ◌, ◌/ℤ◌, ltb_ℤ, leb_ℤ, eqb_ℤ}
use prevail.Prelude.Result.{Result, ok, err, ◌>>=◌, overflow, division_by_zero}
use prevail.Arith.Number.{IntType, sint, static_cast, lowest, highest, narrow}

abbrev pub SafeI64 : Type 0
SafeI64 = ℤ

abbrev pub int64 : IntType
int64 = sint 64

-- The result of an operation on `WideInt`.
unfoldable pub wide : ℤ → ℤ
wide n = static_cast (sint 128) n

unfoldable pub in_int64 : ℤ → Option ℤ
in_int64 lr =
    if ltb_ℤ (highest int64) lr || ltb_ℤ lr (lowest int64)
    then none
    else some (static_cast int64 lr)

unfoldable pub checked_add : ℤ → ℤ → Option ℤ
checked_add a b = in_int64 (wide (a +ℤ b))

unfoldable pub checked_sub : ℤ → ℤ → Option ℤ
checked_sub a b = in_int64 (wide (a -ℤ b))

unfoldable pub checked_mul : ℤ → ℤ → Option ℤ
checked_mul a b = in_int64 (wide (a *ℤ b))

unfoldable pub checked_div : ℤ → ℤ → Option ℤ
checked_div a b = in_int64 (wide (a /ℤ b))

-- The value, or CRAB_ERROR.
abbrev pub or_overflow : Option ℤ → Result SafeI64
or_overflow (some z) = ok z
or_overflow none = err overflow

-- The constructor from a number.
unfoldable pub of_number : ℤ → Result SafeI64
of_number n = narrow int64 n

unfoldable pub add : SafeI64 → SafeI64 → Result SafeI64
add a x = or_overflow (checked_add a x)

unfoldable pub sub : SafeI64 → SafeI64 → Result SafeI64
sub a x = or_overflow (checked_sub a x)

unfoldable pub mul : SafeI64 → SafeI64 → Result SafeI64
mul a x = or_overflow (checked_mul a x)

unfoldable pub div : SafeI64 → SafeI64 → Result SafeI64
div a x = or_overflow (checked_div a x)

unfoldable pub neg : SafeI64 → Result SafeI64
neg a = sub (pos 0) a

abbrev pub lt : SafeI64 → SafeI64 → Bool
lt a x = ltb_ℤ a x

abbrev pub le : SafeI64 → SafeI64 → Bool
le a x = leb_ℤ a x

abbrev pub equal : SafeI64 → SafeI64 → Bool
equal a x = eqb_ℤ a x
