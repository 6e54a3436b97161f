-- ===== src/Arith/Number/Casts.antt =====
-- The casts of src/arith/num_big.hpp to machine integers.
use native.Mathlib.Nat.{mod-eq_of_lt, two-pow-succ}
use prevail.Prelude.{
  ◌+◌, ℕ, zero, suc, ◌-◌, ◌%◌, ◌^◌, ◌<◌, ◌≡◌, refl, true, false, if◌then◌else◌, ◌||◌, arith, Bool,
}
use prevail.Prelude.Int.{ℤ, pos, sub_ℕ, mod_ℕ, mod_ℕ-lt}
use prevail.Prelude.Result.{ok, err, no_fit, Returns, returns}
use prevail.Arith.Number.{
  IntType, sint, uint, width, fits, fits_cast_to, cast_to, static_cast, swap_signedness,
}
use prevail.Arith.Number.Wrap.{pow_pos}

-- Two halves make the whole.
pub halves : (w : ℕ) → 0 < w → 2 ^ w ≡ 2 ^ (w - 1) + 2 ^ (w - 1)
halves zero h = absurd (omega arith)
halves (suc v) h = let e : suc v - 1 ≡ v = omega arith in rw e (two-pow-succ v)

-- A machine integer of the type that is the number, up to the type's wrap.
abbrev pub Represents : IntType → ℤ → ℤ → Type 0
Represents t n m = (fits t m ≡ true) × (mod_ℕ m (2 ^ width t) ≡ mod_ℕ n (2 ^ width t))

mod_again : (n : ℤ) (w : ℕ) → mod_ℕ n (2 ^ w) % 2 ^ w ≡ mod_ℕ n (2 ^ w)
mod_again n w = mod-eq_of_lt (mod_ℕ-lt n (2 ^ w) (pow_pos w))

wrapped : (m p : ℕ) → m < p → mod_ℕ (sub_ℕ m p) p ≡ m
unfolding mod_ℕ
wrapped m p h = ground (arith, mod-eq_of_lt {n = p - m - 1} {m = p} (omega arith))

either_sign : (t : Bool) (m p : ℕ) → m < p → mod_ℕ (if t then sub_ℕ m p else pos m) p ≡ m
unfolding mod_ℕ
either_sign true m p h = wrapped m p h
either_sign false m p h = mod-eq_of_lt h

static_cast-Represents : (t : IntType) (n : ℤ) → 0 < width t → Represents t n (static_cast t n)
unfolding static_cast fits mod_ℕ
static_cast-Represents (uint w) n h =
    (ground (arith, mod_ℕ-lt n (2 ^ w) (pow_pos w)), mod_again n w)
static_cast-Represents (sint w) n h = (
  ground (arith, halves w h, mod_ℕ-lt n (2 ^ w) (pow_pos w)),
  either_sign _ (mod_ℕ n (2 ^ w)) (2 ^ w) (mod_ℕ-lt n (2 ^ w) (pow_pos w)),
)

-- A cast to a type of positive width, of a number that fits the type or its twin of the other
-- signedness, returns a number that fits the type and is congruent to the first modulo 2 to the
-- power of the width.
pub cast_to-Represents :
    (t : IntType) (n : ℤ)
    → 0 < width t
    → fits_cast_to t n ≡ true
    → Returns (Represents t n) (cast_to t n)
unfolding cast_to fits_cast_to
cast_to-Represents t n h = by_fit (fits t n) (fits (swap_signedness t) n) refl
  where
    by_fit :
        (b c : Bool)
        → fits t n ≡ b
        → (b || c) ≡ true
        → Returns
            (Represents t n)
            (if b then ok n else if c then ok (static_cast t n) else err no_fit)
    by_fit true c e k = returns (e, refl)
    by_fit false true e k = returns (static_cast-Represents t n h)
    by_fit false false e k = ground arith
