-- ===== src/Tests/Digits.antt =====
-- A model of the operations that the numbers take from `boost::multiprecision::cpp_int`: two's
-- complement, digit by digit.
use prevail.Prelude.{
  ℕ, zero, suc, ◌+◌, ◌-◌, ◌*◌, ◌/◌, ◌%◌, ◌^◌, ◌≤◌, ◌<◌, ◌≡◌, refl, sym, ap, ◌∙◌, leb, if◌then◌else◌,
  arith,
}
use prevail.Prelude.Int.{ℤ, pos, negsuc, mod_ℕ, ◌+ℤ◌, ◌-ℤ◌}
use native.Mathlib.Nat.{mod-lt, div-add-mod}
use prevail.Prelude.Int.{mod_unique}
use prevail.Arith.CppInt.{CppInt}
use prevail.Arith.Number.Wrap.{pow_pos}

-- `a & b` of natural numbers, of as many digits as the fuel.
unfoldable and_digits : ℕ → ℕ → ℕ → ℕ
and_digits zero a b = 0
and_digits (suc k) a b = (a % 2) * (b % 2) + 2 * and_digits k (a / 2) (b / 2)

-- The index of the highest digit.
unfoldable top_digit : ℕ → ℕ → ℕ
top_digit zero n = 0
top_digit (suc k) n = let rest = top_digit k (n / 2) in if leb 2 n then suc rest else 0

unfoldable and_ℕ : ℕ → ℕ → ℕ
and_ℕ a b = and_digits b a b

and_zero : (k a : ℕ) → and_digits k a 0 ≡ 0
unfolding and_digits
and_zero zero a = refl
and_zero (suc k) a = omega (arith, and_zero k (a / 2))

mask_half : (w : ℕ) → ((2 ^ suc w - 1) / 2 ≡ 2 ^ w - 1) × ((2 ^ suc w - 1) % 2 ≡ 1)
mask_half w = (omega (arith, pow_pos w), omega (arith, pow_pos w))

mod_double : (a m : ℕ) → 0 < m → a % 2 + 2 * ((a / 2) % m) ≡ a % (2 * m)
mod_double a m h = sym (
    mod_unique a _ ((a / 2) / m) (2 * m) (omega (arith, mod-lt (a / 2) h))
      (omega (arith, div-add-mod (a / 2) m)))

and_mask : (w k a : ℕ) → w ≤ k → and_digits k a (2 ^ w - 1) ≡ a % 2 ^ w
unfolding and_digits
and_mask zero k a h = and_zero k a ∙ omega arith
and_mask (suc w) zero a h = elim h [ ]
and_mask (suc w) (suc k) a h =
    rw ((mask_half w).0, (mask_half w).1, and_mask w k (a / 2) (omega arith))
      (omega arith ∙ mod_double a (2 ^ w) (pow_pos w) ∙ ap (λ m. a % m) (omega arith))

and_bit :
    (w k m : ℕ)
    → w < k
    → m < 2 ^ suc w
    → and_digits k m (2 ^ w) ≡ (if leb (2 ^ w) m then 2 ^ w else 0)
unfolding and_digits
and_bit zero zero m h lt = elim h [ ]
and_bit (suc w) zero m h lt = elim h [ ]
and_bit zero (suc k) m h lt = ground (arith, and_zero k (m / 2))
and_bit (suc w) (suc k) m h lt = ground (arith, and_bit w k (m / 2), pow_pos w)

lt_pow : (w : ℕ) → w < 2 ^ w
lt_pow zero = omega arith
lt_pow (suc w) = omega (arith, lt_pow w)

abbrev band_digits : ℤ → ℤ → ℤ
band_digits (pos a) (pos b) = pos (and_ℕ a b)
band_digits (pos a) (negsuc b) = pos (a - and_ℕ b a)
band_digits (negsuc a) (pos b) = pos (b - and_ℕ a b)
band_digits (negsuc a) (negsuc b) = negsuc (a + b - and_ℕ a b)

band_mask : (n : ℤ) (w : ℕ) → band_digits n (pos (2 ^ w - 1)) ≡ pos (mod_ℕ n (2 ^ w))
unfolding mod_ℕ and_ℕ
band_mask (pos a) w = ap pos (and_mask w (2 ^ w - 1) a (omega (arith, lt_pow w)))
band_mask (negsuc a) w =
    ap (λ d. pos (2 ^ w - 1 - d)) (and_mask w (2 ^ w - 1) a (omega (arith, lt_pow w)))

band_bit :
    (m w : ℕ)
    → m < 2 ^ suc w
    → band_digits (pos m) (pos (2 ^ w)) ≡ (if leb (2 ^ w) m then pos (2 ^ w) else pos 0)
unfolding and_ℕ
band_bit m w h = ground (arith, and_bit w (2 ^ w) m (lt_pow w) h)

abbrev shift_digits : ℤ → ℕ → ℤ
shift_digits (pos a) k = pos (a / 2 ^ k)
shift_digits (negsuc a) k = negsuc (a / 2 ^ k)

pub twos_complement : CppInt
twos_complement = record {
  band = band_digits;
  bor = λ a b. a +ℤ b -ℤ band_digits a b;
  bxor = λ a b. a +ℤ b -ℤ band_digits a b -ℤ band_digits a b;
  msb = λ n. top_digit n n;
  shift_right = shift_digits;
  band-mask = band_mask;
  band-bit = band_bit;
}
