-- ===== src/Crab/Interval/Bits.antt =====
-- The bitwise operations, shifts and extensions of src/crab/interval.cpp.
use prevail.Prelude.{
  Bool, ℕ, zero, suc, ◌-◌, ◌^◌, not, ◌&&◌, ◌||◌, none, some, ltb, ◌==◌, if◌then◌else◌,
}
use prevail.Prelude.Int.{pos, nat_abs, ◌*ℤ◌, leb_ℤ, ltb_ℤ, eqb_ℤ}
use prevail.Prelude.Result.{Result, ok, err, ◌>>=◌, invalid_width, failed_assert}
use prevail.Arith.CppInt.{CppInt}
use prevail.Arith.Number
use prevail.Arith.Number.{Number, max_int, min_int, max_uint}
use prevail.Arith.Extended
use prevail.Arith.Extended.{Bound, finite, is_finite, plus_infinity}
use prevail.Crab.Interval.{
  Interval, bottom, top, interval, of_number, is_bottom, is_top, eq, contains, singleton,
  pair_number, size, mul,
}
use prevail.Crab.Interval.Divide.{div}

-- [INT_MIN, INT_MAX] and [0, UINT_MAX] of a width.
unfoldable pub signed_int : ℕ → Interval
signed_int w = interval (finite (min_int w)) (finite (max_int w))

unfoldable pub unsigned_int : ℕ → Interval
unsigned_int w = interval (finite (pos 0)) (finite (max_uint w))

-- The loop `for (i = 0; k > i; i++) factor *= 2`, with k rounds to go.
unfoldable pub double_times : ℕ → Number → Number
double_times zero factor = factor
double_times (suc k) factor = double_times k (factor *ℤ pos 2)

-- The shifts `shl` and `ashr` by a single number: not by a negative one or by more than 128.
unfoldable pub shift_by : (Interval → Result Interval) → Number → Result Interval
shift_by by_factor k =
    if ltb_ℤ k (pos 0)
    then ok top
    else if leb_ℤ k (pos 128)
    then by_factor (of_number (double_times (nat_abs k) (pos 1)))
    else ok top

unfoldable pub shl : Interval → Interval → Result Interval
shl i x =
    if is_bottom i || is_bottom x
    then ok bottom
    else elim (singleton x) [ some k ↦ shift_by (λ f. ok (mul i f)) k | none ↦ ok top ]

-- Three calls of `operator/` are enough (see Divide).
unfoldable pub ashr : Interval → Interval → Result Interval
ashr i x =
    if is_bottom i || is_bottom x
    then ok bottom
    else elim (singleton x) [ some k ↦ shift_by (div 3 i) k | none ↦ ok top ]

-- The shape that `sign_extend` and `zero_extend` share: the extended ends, unless they wrapped.
unfoldable pub extend : (Bound → Result Number) → Interval → Interval → Result Interval
extend extend_end full_range i = do
  s ← size i
  t ← size full_range
  if Extended.lt s t
      then (do
        l ← extend_end i.lb
        u ← extend_end i.ub
        ok (
            if is_bottom (interval (finite l) (finite u))
            then full_range
            else interval (finite l) (finite u)))
      else ok full_range

module _ (C : CppInt) where
  open C use {band, bor, bxor}

  unfoldable pub lshr : Interval → Interval → Result Interval
  lshr i x = if is_bottom i || is_bottom x then ok bottom else elim (singleton x) [
    | some k ↦
        if ltb_ℤ (pos 0) k && Extended.ge i.lb (finite (pos 0)) && is_finite i.ub
        then (do
          (l, u) ← pair_number i
          l' ← Number.shr C l k
          u' ← Number.shr C u k
          ok (interval (finite l') (finite u')))
        else ok top
    | none ↦ ok top
  ]

  unfoldable pub sign_extend : ℕ → Interval → Result Interval
  sign_extend w i =
      if w == 0 then err invalid_width else extend (Extended.sign_extend C w) (signed_int w) i

  unfoldable pub zero_extend : ℕ → Interval → Result Interval
  zero_extend w i =
      if w == 0 then err invalid_width else extend (Extended.zero_extend C w) (unsigned_int w) i

  -- The last branches of `bitwise_and`, by which operands are top.
  unfoldable pub and_ranges : Interval → Interval → Result Interval
  and_ranges i x =
      if contains x (max_uint 64)
      then zero_extend 64 i
      else if not (is_top i) && not (is_top x)
      then ok (interval (finite (pos 0)) (Extended.min i.ub x.ub))
      else if not (is_top x)
      then ok (interval (finite (pos 0)) x.ub)
      else if not (is_top i)
      then ok (interval (finite (pos 0)) i.ub)
      else ok top

  unfoldable pub and_mask : Interval → Interval → Number → Result Interval
  and_mask i x right =
      if eqb_ℤ right (max_uint 32)
      then zero_extend 32 i
      else if eqb_ℤ right (max_uint 16)
      then zero_extend 16 i
      else if eqb_ℤ right (max_uint 8)
      then zero_extend 8 i
      else and_ranges i x

  -- What the asserts of `bitwise_and` ask of an operand.
  abbrev is_unsigned : Interval → Bool
  is_unsigned i = is_top i || Extended.ge i.lb (finite (pos 0))

  unfoldable pub bitwise_and : Interval → Interval → Result Interval
  bitwise_and i x =
      if is_bottom i || is_bottom x
      then ok bottom
      else if not (is_unsigned i && is_unsigned x)
      then err failed_assert
      else if eq i (of_number (pos 0)) || eq x (of_number (pos 0))
      then ok (of_number (pos 0))
      else elim (singleton x) [
        | some right ↦ elim (singleton i) [
          | some left ↦ ok (of_number (band left right))
          | none ↦ and_mask i x right
        ]
        | none ↦ and_ranges i x
      ]

  -- The branches of `bitwise_or` for operands that are not two single numbers.
  unfoldable pub or_ranges : Interval → Interval → Interval
  or_ranges i x =
      if Extended.ge i.lb (finite (pos 0)) && Extended.ge x.lb (finite (pos 0))
      then elim (Extended.number i.ub) [
        | some l ↦ elim (Extended.number x.ub) [
          | some r ↦
              interval (finite (pos 0)) (finite (Number.fill_ones C (if ltb_ℤ l r then r else l)))
          | none ↦ interval (finite (pos 0)) plus_infinity
        ]
        | none ↦ interval (finite (pos 0)) plus_infinity
      ]
      else top

  -- `op` of two single numbers, or else the branches above.
  unfoldable pub or_singletons : (Number → Number → Number) → Interval → Interval → Interval
  or_singletons op i x = elim (singleton i) [
    | some l ↦ elim (singleton x) [ some r ↦ of_number (op l r) | none ↦ or_ranges i x ]
    | none ↦ or_ranges i x
  ]

  unfoldable pub bitwise_or : Interval → Interval → Interval
  bitwise_or i x = if is_bottom i || is_bottom x then bottom else or_singletons bor i x

  unfoldable pub bitwise_xor : Interval → Interval → Interval
  bitwise_xor i x = if is_bottom i || is_bottom x then bottom else elim (singleton i) [
    | some l ↦ elim (singleton x) [ some r ↦ of_number (bxor l r) | none ↦ bitwise_or i x ]
    | none ↦ bitwise_or i x
  ]

  unfoldable pub mask_value : ℕ → Interval → Result Interval
  mask_value w i = if ltb 0 w && ltb w 64 then bitwise_and i (of_number (pos (2 ^ w - 1))) else ok i

  unfoldable pub mask_shift_count : ℕ → Interval → Result Interval
  mask_shift_count w i = if ltb 0 w then bitwise_and i (of_number (pos (w - 1))) else ok i
