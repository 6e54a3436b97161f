-- ===== src/Arith/SafeInt/Exact.antt =====
-- The operations of src/arith/num_safeint.hpp against those of the integers.
use prevail.Prelude.{suc, ◌+◌, ◌*◌, ◌^◌, ◌≤◌, true, false, ◌≡◌, ap, ◌∙◌, if◌then◌else◌, arith}
use prevail.Prelude.Int.{ℤ, pos, negsuc, nat_abs, ◌+ℤ◌, ◌-ℤ◌, ◌*ℤ◌, ◌/ℤ◌, eqb_ℤ, mod_ℕ}
use prevail.Prelude.Result.{Result, ok, err, overflow}
use prevail.Arith.Number.{static_cast, fits}
use native.Mathlib.Nat.{mul-le-mul, div-le_self}
use prevail.Arith.SafeInt.{
  wide, in_int64, or_overflow, checked_add, checked_sub, checked_mul, checked_div, add, sub, mul,
  div, neg, int64,
}

-- 128 bits hold every number up to 2 ^ 126.
wide-exact : (n : ℤ) → nat_abs n ≤ 2 ^ 126 → wide n ≡ n
unfolding wide static_cast mod_ℕ
wide-exact n h = ground arith

in_int64-exact : (n : ℤ) → or_overflow (in_int64 n) ≡ (if fits int64 n then ok n else err overflow)
unfolding in_int64 fits static_cast mod_ℕ
in_int64-exact n = ground arith

nat_abs-add : (a b : ℤ) → nat_abs (a +ℤ b) ≤ nat_abs a + nat_abs b
unfolding ◌+ℤ◌
nat_abs-add a b = ground arith

nat_abs-sub : (a b : ℤ) → nat_abs (a -ℤ b) ≤ nat_abs a + nat_abs b
unfolding ◌-ℤ◌
nat_abs-sub a b = ground arith

nat_abs-mul : (a b : ℤ) → nat_abs (a *ℤ b) ≤ nat_abs a * nat_abs b
unfolding ◌*ℤ◌
nat_abs-mul a b = ground arith

nat_abs-div : (a b : ℤ) → nat_abs (a /ℤ b) ≤ nat_abs a
unfolding ◌/ℤ◌
nat_abs-div (pos a) (pos b) = div-le_self a b
nat_abs-div (pos a) (negsuc b) = ground (arith, div-le_self a (suc b))
nat_abs-div (negsuc a) (pos b) = ground (arith, div-le_self (suc a) b)
nat_abs-div (negsuc a) (negsuc b) = div-le_self (suc a) (suc b)

nat_abs-le : (a : ℤ) → fits int64 a ≡ true → nat_abs a ≤ 2 ^ 63
unfolding fits
nat_abs-le a h = ground arith

-- The integer, if it fits in 64 bits, else an overflow.
abbrev pub exact : ℤ → Result ℤ
exact n = if fits int64 n then ok n else err overflow

through : (n : ℤ) → nat_abs n ≤ 2 ^ 126 → or_overflow (in_int64 (wide n)) ≡ exact n
through n h = ap (λ m. or_overflow (in_int64 m)) (wide-exact n h) ∙ in_int64-exact n

-- The operations on two 64-bit integers.
pub record AllExact (a b : ℤ) : Type 0 where
  pub add-exact : add a b ≡ exact (a +ℤ b)
  pub sub-exact : sub a b ≡ exact (a -ℤ b)
  pub mul-exact : mul a b ≡ exact (a *ℤ b)
  pub neg-exact : neg a ≡ exact (pos 0 -ℤ a)

-- On 64-bit integers, a sum, difference, product or negation is the integer's if that fits in 64
-- bits, and an overflow error exactly if it does not.
pub operations-AllExact : (a b : ℤ) → fits int64 a ≡ true → fits int64 b ≡ true → AllExact a b
unfolding add sub mul neg checked_add checked_sub checked_mul
operations-AllExact a b ha hb =
    let la = nat_abs-le a ha in
    let lb = nat_abs-le b hb in
    record {
      add-exact = through (a +ℤ b) (omega (arith, nat_abs-add a b, la, lb));
      sub-exact = through (a -ℤ b) (omega (arith, nat_abs-sub a b, la, lb));
      mul-exact = through (a *ℤ b) (omega (arith, nat_abs-mul a b, mul-le-mul la lb));
      neg-exact = through (pos 0 -ℤ a) (omega (arith, nat_abs-sub (pos 0) a, la));
    }

-- The quotient of a 64-bit integer by an integer other than 0 is the integer rounded towards 0 if
-- that fits in 64 bits, and an overflow error exactly if it does not.
pub div-exact : (a b : ℤ) → fits int64 a ≡ true → eqb_ℤ b (pos 0) ≡ false → div a b ≡ exact (a /ℤ b)
unfolding div checked_div
div-exact a b ha nonzero = through (a /ℤ b) (omega (arith, nat_abs-div a b, nat_abs-le a ha))
