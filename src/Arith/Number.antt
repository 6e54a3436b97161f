-- ===== src/Arith/Number.antt =====
-- `class Number` of src/arith/num_big.hpp. A `cpp_int` has no bound: it is an integer. `+`, `-`, `*`,
-- negation and comparisons are those of the integers (Prelude/Int.antt).
pub mod Wrap
pub mod Casts
pub mod Narrow
use prevail.Prelude.{
  ℕ, zero, suc, ◌+◌, ◌-◌, ◌^◌, Bool, true, not, ◌&&◌, ◌||◌, ◌==◌, leb, if◌then◌else◌,
}
use prevail.Prelude.Int.{
  ℤ, pos, negsuc, sub_ℕ, nat_abs, neg_ℤ, ◌-ℤ◌, ◌/ℤ◌, ◌%ℤ◌, mod_ℕ, leb_ℤ, ltb_ℤ, eqb_ℤ,
}
use prevail.Prelude.Result.{
  Result, ok, err, no_fit, division_by_zero, invalid_width, negative_shift,
}
use prevail.Arith.CppInt.{CppInt}

abbrev pub Number : Type 0
Number = ℤ

-- The integral types of C++ that the casts are used at: intW_t and uintW_t.
pub data IntType : Type 0 where
  sint uint : ℕ → IntType

abbrev pub width : IntType → ℕ
width (sint w) = w
width (uint w) = w

abbrev pub swap_signedness : IntType → IntType
swap_signedness (sint w) = uint w
swap_signedness (uint w) = sint w

abbrev pub lowest : IntType → ℤ
lowest (sint w) = sub_ℕ 0 (2 ^ (w - 1))
lowest (uint w) = pos 0

abbrev pub highest : IntType → ℤ
highest (sint w) = sub_ℕ (2 ^ (w - 1)) 1
highest (uint w) = sub_ℕ (2 ^ w) 1

-- static_cast of an integer to a type: modulo 2 ^ w, in the range of the type.
unfoldable pub static_cast : IntType → ℤ → ℤ
static_cast (sint w) n =
    let m = mod_ℕ n (2 ^ w) in if leb (2 ^ (w - 1)) m then sub_ℕ m (2 ^ w) else pos m
static_cast (uint w) n = pos (mod_ℕ n (2 ^ w))

unfoldable pub fits : IntType → Number → Bool
fits t n = leb_ℤ (lowest t) n && leb_ℤ n (highest t)

unfoldable pub fits_cast_to : IntType → Number → Bool
unfolding fits
fits_cast_to t n = fits t n || fits (swap_signedness t) n

unfoldable pub narrow : IntType → Number → Result ℤ
unfolding fits
narrow t n = if fits t n then ok n else err no_fit

unfoldable pub cast_to : IntType → Number → Result ℤ
unfolding fits static_cast
cast_to t n =
    if fits t n
    then ok n
    else if fits (swap_signedness t) n
    then ok (static_cast t n)
    else err no_fit

abbrev is_cast_width : ℕ → Bool
is_cast_width w = w == 8 || w == 16 || w == 32 || w == 64

unfoldable pub cast_to_sint : ℕ → Number → Result Number
unfolding cast_to
cast_to_sint w n =
    if w == 0 then ok n else if is_cast_width w then cast_to (sint w) n else err invalid_width

unfoldable pub cast_to_uint : ℕ → Number → Result Number
unfolding cast_to
cast_to_uint w n =
    if w == 0 then ok n else if is_cast_width w then cast_to (uint w) n else err invalid_width

-- The widths of these three are positive where the source uses them.
abbrev pub max_int : ℕ → Number
max_int w = sub_ℕ (2 ^ (w - 1)) 1

abbrev pub max_uint : ℕ → Number
max_uint w = max_int (w + 1)

abbrev pub min_int : ℕ → Number
min_int w = sub_ℕ 0 (2 ^ (w - 1))

unfoldable pub div : Number → Number → Result Number
unfolding ◌/ℤ◌
div n x = if eqb_ℤ x (pos 0) then err division_by_zero else ok (n /ℤ x)

unfoldable pub rem : Number → Number → Result Number
unfolding ◌%ℤ◌
rem n x = if eqb_ℤ x (pos 0) then err division_by_zero else ok (n %ℤ x)

unfoldable pub abs : Number → Number
unfolding neg_ℤ
abs n = if ltb_ℤ n (pos 0) then neg_ℤ n else n

module _ (C : CppInt) where
  open C use {band, msb, shift_right}

  -- `truncated & sign_bit` is tested for being non-zero. The arms of the switch and its default
  -- compute the same thing.
  unfoldable pub sign_extend_impl : ℕ → Number → Number
  unfolding ◌-ℤ◌
  sign_extend_impl w n =
      let truncated = band n (pos (2 ^ w - 1)) in
      if not (eqb_ℤ (band truncated (pos (2 ^ (w - 1)))) (pos 0))
      then truncated -ℤ pos (2 ^ w)
      else truncated

  unfoldable pub zero_extend_impl : ℕ → Number → Number
  zero_extend_impl w n = band n (pos (2 ^ w - 1))

  unfoldable pub sign_extend : ℕ → Number → Number
  unfolding sign_extend_impl
  sign_extend w n = if w == 0 then n else sign_extend_impl w n

  unfoldable pub zero_extend : ℕ → Number → Number
  unfolding zero_extend_impl
  zero_extend w n = if w == 0 then n else zero_extend_impl w n

  -- `_n >> x.narrow<int32_t>()`, past the two tests on the shift.
  unfoldable pub shr : Number → Number → Result Number
  unfolding fits
  shr n x =
      if ltb_ℤ x (pos 0)
      then err negative_shift
      else if not (fits (sint 32) x)
      then err no_fit
      else ok (shift_right n (nat_abs x))

  -- The source takes the logarithm of non-negative numbers only.
  unfoldable pub fill_ones : Number → Number
  fill_ones n = if eqb_ℤ n (pos 0) then pos 0 else sub_ℕ (2 ^ (msb (nat_abs n) + 1)) 1
