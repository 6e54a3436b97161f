-- ===== src/Prelude/Int.antt =====
-- The integers over the native numbers. Sums, products and orders go through the two parts of an
-- integer, which are numbers that `omega` reads.
use Prim.Native.Nat.{ℕ, suc, ◌+◌, ◌-◌, ◌*◌, ◌/◌, ◌%◌, ◌≤◌, ◌<◌}
use mathlib.Core.Path.{◌≡◌, sym, ap, ◌∙◌}
use mathlib.Core.Logic.{◌↔◌}
use mathlib.Core.Bool.{Bool, true}
use native.Mathlib.Omega.{arith}
use native.Mathlib.Nat.{
  mul-le-mul_right, mod-lt, mod-eq_of_lt, add-mul-mod_self_right, mod-add-mod, div-add-mod,
}
use native.Mathlib.Decide.{ℕ_discrete, dec_le}
use prevail.Prelude.Tests.{ltb, leb, ◌==◌, if◌then◌else◌}

-- `negsuc n` is -(n + 1).
pub data ℤ : Type 0 where
  pos : ℕ → ℤ
  negsuc : ℕ → ℤ

abbrev pub pos_part : ℤ → ℕ
pos_part (pos n) = n
pos_part (negsuc n) = 0

abbrev pub neg_part : ℤ → ℕ
neg_part (pos n) = 0
neg_part (negsuc n) = suc n

abbrev pub nat_abs : ℤ → ℕ
nat_abs (pos n) = n
nat_abs (negsuc n) = suc n

-- a - b, as an integer.
abbrev pub sub_ℕ : ℕ → ℕ → ℤ
sub_ℕ a b = if leb b a then pos (a - b) else negsuc (b - a - 1)

infixl 65 ◌+ℤ◌ ◌-ℤ◌
infixl 70 ◌*ℤ◌ ◌/ℤ◌ ◌%ℤ◌
infix 50 ◌≤ℤ◌ ◌<ℤ◌
unfoldable pub ◌+ℤ◌ : ℤ → ℤ → ℤ
a +ℤ b = sub_ℕ (pos_part a + pos_part b) (neg_part a + neg_part b)

unfoldable pub ◌-ℤ◌ : ℤ → ℤ → ℤ
a -ℤ b = sub_ℕ (pos_part a + neg_part b) (neg_part a + pos_part b)

unfoldable pub neg_ℤ : ℤ → ℤ
neg_ℤ a = sub_ℕ (neg_part a) (pos_part a)

unfoldable pub ◌*ℤ◌ : ℤ → ℤ → ℤ
a *ℤ b =
    sub_ℕ (pos_part a * pos_part b + neg_part a * neg_part b)
      (pos_part a * neg_part b + neg_part a * pos_part b)

-- The quotient rounded towards zero, and the remainder with the dividend's sign.
unfoldable pub ◌/ℤ◌ : ℤ → ℤ → ℤ
pos a /ℤ pos b = pos (a / b)
pos a /ℤ negsuc b = sub_ℕ 0 (a / suc b)
negsuc a /ℤ pos b = sub_ℕ 0 (suc a / b)
negsuc a /ℤ negsuc b = pos (suc a / suc b)

unfoldable pub ◌%ℤ◌ : ℤ → ℤ → ℤ
pos a %ℤ b = pos (a % nat_abs b)
negsuc a %ℤ b = sub_ℕ 0 (suc a % nat_abs b)

-- The remainder that is not negative, of a division by a positive number.
unfoldable pub mod_ℕ : ℤ → ℕ → ℕ
mod_ℕ (pos a) m = a % m
mod_ℕ (negsuc a) m = m - 1 - a % m

abbrev pub ◌≤ℤ◌ : ℤ → ℤ → Type 0
a ≤ℤ b = pos_part a + neg_part b ≤ pos_part b + neg_part a

abbrev pub ◌<ℤ◌ : ℤ → ℤ → Type 0
a <ℤ b = pos_part a + neg_part b < pos_part b + neg_part a

abbrev pub leb_ℤ : ℤ → ℤ → Bool
leb_ℤ a b = leb (pos_part a + neg_part b) (pos_part b + neg_part a)

abbrev pub ltb_ℤ : ℤ → ℤ → Bool
ltb_ℤ a b = ltb (pos_part a + neg_part b) (pos_part b + neg_part a)

abbrev pub eqb_ℤ : ℤ → ℤ → Bool
eqb_ℤ a b = pos_part a + neg_part b == pos_part b + neg_part a

pub ℤ-discrete : Discrete ℤ
ℤ-discrete = hlevel ℕ_discrete

pub leb_ℤ_iff : (a b : ℤ) → (leb_ℤ a b ≡ true) ↔ (a ≤ℤ b)
leb_ℤ_iff a b = ground arith

-- One lemma for each operation lets `omega` work with the operations shut, at any depth.
pub +ℤ_parts :
    (a b : ℤ)
    → pos_part (a +ℤ b) + neg_part a + neg_part b ≡ neg_part (a +ℤ b) + pos_part a + pos_part b
unfolding ◌+ℤ◌
+ℤ_parts a b = ground arith

pub -ℤ_parts :
    (a b : ℤ)
    → pos_part (a -ℤ b) + neg_part a + pos_part b ≡ neg_part (a -ℤ b) + pos_part a + neg_part b
unfolding ◌-ℤ◌
-ℤ_parts a b = ground arith

pub neg_ℤ_parts : (a : ℤ) → pos_part (neg_ℤ a) + pos_part a ≡ neg_part (neg_ℤ a) + neg_part a
unfolding neg_ℤ
neg_ℤ_parts a = ground arith

pub *ℤ_parts :
    (a b : ℤ)
    → pos_part (a *ℤ b) + (pos_part a * neg_part b + neg_part a * pos_part b)
      ≡ neg_part (a *ℤ b) + (pos_part a * pos_part b + neg_part a * neg_part b)
unfolding ◌*ℤ◌
*ℤ_parts a b = ground arith

pub eq_of_parts : (a b : ℤ) → pos_part a + neg_part b ≡ pos_part b + neg_part a → a ≡ b
eq_of_parts a b h = ground arith

pub eqb_ℤ_iff : (a b : ℤ) → (eqb_ℤ a b ≡ true) ↔ (a ≡ b)
eqb_ℤ_iff a b = ground arith

pub ruleset int_laws = (arith, +ℤ_parts, -ℤ_parts, neg_ℤ_parts, eq_of_parts)

pub *ℤ_comm : (a b : ℤ) → a *ℤ b ≡ b *ℤ a
*ℤ_comm a b = omega (arith, *ℤ_parts a b, *ℤ_parts b a, eq_of_parts)

-- Multiplication by a number of one sign is monotone.
pub *ℤ_mono_nonneg : (a b : ℤ) (k : ℕ) → a ≤ℤ b → a *ℤ pos k ≤ℤ b *ℤ pos k
*ℤ_mono_nonneg a b k h = omega (arith, *ℤ_parts a (pos k), *ℤ_parts b (pos k), mul-le-mul_right k h)

pub *ℤ_mono_neg : (a b : ℤ) (k : ℕ) → a ≤ℤ b → b *ℤ negsuc k ≤ℤ a *ℤ negsuc k
*ℤ_mono_neg a b k h =
    omega (arith, *ℤ_parts a (negsuc k), *ℤ_parts b (negsuc k), mul-le-mul_right (suc k) h)

pub mod_ℕ-lt : (n : ℤ) (m : ℕ) → 0 < m → mod_ℕ n m < m
unfolding mod_ℕ
mod_ℕ-lt (pos a) m h = mod-lt a h
mod_ℕ-lt (negsuc a) m h = omega arith

-- A number below m plus a multiple of m has that number as its remainder.
pub mod_unique : (x r q m : ℕ) → r < m → x ≡ r + q * m → x % m ≡ r
mod_unique x r q m h e = rw e (rw (add-mul-mod_self_right r q m) (mod-eq_of_lt h))

-- Two numbers that differ by multiples of m have the same remainder.
mod_congr : (x y p q m : ℕ) → x + p * m ≡ y + q * m → x % m ≡ y % m
mod_congr x y p q m e =
    sym (add-mul-mod_self_right x p m) ∙ ap (λ z. z % m) e ∙ add-mul-mod_self_right y q m

over : (k a m : ℕ) → 0 < m → suc k ≤ a → (a - suc k) % m ≡ (m - 1 - k % m + a) % m
over k a m h le =
    mod_congr (a - suc k) (m - 1 - k % m + a) (k / m + 1) 0 m
      (omega (arith, div-add-mod k m, mod-lt k h))

under : (k a m : ℕ) → 0 < m → a ≤ k → m - 1 - (k - a) % m ≡ (m - 1 - k % m + a) % m
under k a m h le =
    sym (mod_unique (m - 1 - (k - a) % m) _ 0 m (omega (arith, mod-lt (k - a) h)) (omega arith))
    ∙ mod_congr (m - 1 - (k - a) % m) (m - 1 - k % m + a) (k / m) ((k - a) / m) m
        (omega (arith, div-add-mod k m, div-add-mod (k - a) m, mod-lt k h, mod-lt (k - a) h))

pub pos-+ℤ-pos : (n a : ℕ) → pos n +ℤ pos a ≡ pos (n + a)
pos-+ℤ-pos n a = omega int_laws

negsuc-+ℤ-over : (k a : ℕ) → suc k ≤ a → negsuc k +ℤ pos a ≡ pos (a - suc k)
negsuc-+ℤ-over k a h = omega int_laws

negsuc-+ℤ-under : (k a : ℕ) → a ≤ k → negsuc k +ℤ pos a ≡ negsuc (k - a)
negsuc-+ℤ-under k a h = omega int_laws

-- Adding a number and taking the remainder.
pub mod_ℕ-+ : (n : ℤ) (a m : ℕ) → 0 < m → mod_ℕ (n +ℤ pos a) m ≡ (mod_ℕ n m + a) % m
unfolding mod_ℕ
mod_ℕ-+ (pos n) a m h = rw (pos-+ℤ-pos n a) (sym (mod-add-mod n m a))
mod_ℕ-+ (negsuc k) a m h = elim (dec_le (suc k) a) [
  | yes le ↦ rw (negsuc-+ℤ-over k a le) (over k a m h le)
  | no gt ↦ let le : a ≤ k = omega arith in rw (negsuc-+ℤ-under k a le) (under k a m h le)
]
