-- ===== src/Arith/Extended/Product.antt =====
-- Products of the bounds of src/arith/num_extended.hpp, and their order.
use prevail.Prelude.{
  ℕ, zero, suc, ◌≡◌, refl, Bool, true, false, ◌||◌, ◌⊎◌, inl, inr, arith, if◌then◌else◌,
}
use prevail.Prelude.Int.{
  ℤ, pos, negsuc, ◌*ℤ◌, ltb_ℤ, eq_of_parts, *ℤ_comm, *ℤ_mono_nonneg, *ℤ_mono_neg,
}
use prevail.Arith.Extended.Order.{if-IsNormal}
use prevail.Arith.Extended.{
  Bound, IsNormal, minus_inf, number_of, plus_inf, finite, make, mul, le, minus_infinity,
  plus_infinity,
}

pub mul-finite : (n m : ℤ) → mul (finite n) (finite m) ≡ finite (n *ℤ m)
unfolding mul
mul-finite n m = ground (arith, eq_of_parts n (pos 0), eq_of_parts m (pos 0))

mul-minus-pos : (k : ℕ) → mul minus_infinity (finite (pos (suc k))) ≡ minus_infinity
unfolding mul
mul-minus-pos k = ground arith

mul-minus-negsuc : (k : ℕ) → mul minus_infinity (finite (negsuc k)) ≡ plus_infinity
unfolding mul
mul-minus-negsuc k = ground arith

mul-plus-pos : (k : ℕ) → mul plus_infinity (finite (pos (suc k))) ≡ plus_infinity
unfolding mul
mul-plus-pos k = ground arith

mul-plus-negsuc : (k : ℕ) → mul plus_infinity (finite (negsuc k)) ≡ minus_infinity
unfolding mul
mul-plus-negsuc k = ground arith

mul-zero : (x : Bound) → mul x (finite (pos 0)) ≡ finite (pos 0)
unfolding mul
mul-zero x = refl

infinity-IsNormal :
    (s : Bool) → IsNormal (record { is_infinite = true; n = if s then pos 1 else negsuc 0 })
infinity-IsNormal true = plus_inf
infinity-IsNormal false = minus_inf

pub make-IsNormal : (b : Bool) (n : ℤ) → IsNormal (make b n)
unfolding make
make-IsNormal true n = infinity-IsNormal (ltb_ℤ (pos 0) n)
make-IsNormal false n = number_of n

pub mul-IsNormal : {x y : Bound} → IsNormal x → IsNormal y → IsNormal (mul x y)
unfolding mul
mul-IsNormal {x} {y} p q =
    if-IsNormal _ q (if-IsNormal _ p (make-IsNormal (x.is_infinite || y.is_infinite) _))

-- The product of two extended numbers does not depend on their order, with 0 times an infinity
-- included.
pub mul_comm : {x y : Bound} → IsNormal x → IsNormal y → mul x y ≡ mul y x
unfolding mul
mul_comm minus_inf minus_inf = refl
mul_comm minus_inf (number_of m) = ground (arith, *ℤ_comm (negsuc 0) m)
mul_comm minus_inf plus_inf = refl
mul_comm (number_of n) minus_inf = ground (arith, *ℤ_comm (negsuc 0) n)
mul_comm (number_of n) (number_of m) = ground (arith, *ℤ_comm n m)
mul_comm (number_of n) plus_inf = ground (arith, *ℤ_comm (pos 1) n)
mul_comm plus_inf minus_inf = refl
mul_comm plus_inf (number_of m) = ground (arith, *ℤ_comm (pos 1) m)
mul_comm plus_inf plus_inf = refl

-- By a number of one sign.
mul-le-mul_nonneg :
    {x y : Bound} (k : ℕ)
    → IsNormal x
    → IsNormal y
    → le x y ≡ true
    → le (mul x (finite (pos k))) (mul y (finite (pos k))) ≡ true
unfolding le
mul-le-mul_nonneg zero p q h = rw (mul-zero, mul-zero)
mul-le-mul_nonneg (suc k) minus_inf minus_inf h = rw mul-minus-pos
mul-le-mul_nonneg (suc k) minus_inf (number_of m) h = rw (mul-minus-pos, mul-finite)
mul-le-mul_nonneg (suc k) minus_inf plus_inf h = rw (mul-minus-pos, mul-plus-pos)
mul-le-mul_nonneg (suc k) (number_of n) minus_inf h = ground arith
mul-le-mul_nonneg (suc k) (number_of n) (number_of m) h =
    rw (mul-finite, mul-finite) (ground (arith, *ℤ_mono_nonneg n m (suc k)))
mul-le-mul_nonneg (suc k) (number_of n) plus_inf h = rw (mul-plus-pos, mul-finite)
mul-le-mul_nonneg (suc k) plus_inf minus_inf h = ground arith
mul-le-mul_nonneg (suc k) plus_inf (number_of m) h = ground arith
mul-le-mul_nonneg (suc k) plus_inf plus_inf h = rw mul-plus-pos

mul-le-mul_neg :
    {x y : Bound} (k : ℕ)
    → IsNormal x
    → IsNormal y
    → le x y ≡ true
    → le (mul y (finite (negsuc k))) (mul x (finite (negsuc k))) ≡ true
unfolding le
mul-le-mul_neg k minus_inf minus_inf h = rw mul-minus-negsuc
mul-le-mul_neg k minus_inf (number_of m) h = rw (mul-minus-negsuc, mul-finite)
mul-le-mul_neg k minus_inf plus_inf h = rw (mul-minus-negsuc, mul-plus-negsuc)
mul-le-mul_neg k (number_of n) minus_inf h = ground arith
mul-le-mul_neg k (number_of n) (number_of m) h =
    rw (mul-finite, mul-finite) (ground (arith, *ℤ_mono_neg n m k))
mul-le-mul_neg k (number_of n) plus_inf h = rw (mul-plus-negsuc, mul-finite)
mul-le-mul_neg k plus_inf minus_inf h = ground arith
mul-le-mul_neg k plus_inf (number_of m) h = ground arith
mul-le-mul_neg k plus_inf plus_inf h = rw mul-plus-negsuc

-- By an infinity.
plus-le-plus :
    {x y : Bound}
    → IsNormal x
    → IsNormal y
    → le x y ≡ true
    → le (mul plus_infinity x) (mul plus_infinity y) ≡ true
unfolding le mul
plus-le-plus minus_inf minus_inf h = refl
plus-le-plus minus_inf (number_of m) h = ground arith
plus-le-plus minus_inf plus_inf h = refl
plus-le-plus (number_of n) minus_inf h = ground arith
plus-le-plus (number_of n) (number_of m) h = ground arith
plus-le-plus (number_of n) plus_inf h = ground arith
plus-le-plus plus_inf minus_inf h = ground arith
plus-le-plus plus_inf (number_of m) h = ground arith
plus-le-plus plus_inf plus_inf h = refl

minus-le-minus :
    {x y : Bound}
    → IsNormal x
    → IsNormal y
    → le x y ≡ true
    → le (mul minus_infinity y) (mul minus_infinity x) ≡ true
unfolding le mul
minus-le-minus minus_inf minus_inf h = refl
minus-le-minus minus_inf (number_of m) h = ground arith
minus-le-minus minus_inf plus_inf h = refl
minus-le-minus (number_of n) minus_inf h = ground arith
minus-le-minus (number_of n) (number_of m) h = ground arith
minus-le-minus (number_of n) plus_inf h = ground arith
minus-le-minus plus_inf minus_inf h = ground arith
minus-le-minus plus_inf (number_of m) h = ground arith
minus-le-minus plus_inf plus_inf h = refl

-- A product with one factor between two bounds is at least one of the two products of the bounds.
abbrev pub AboveOne : Bound → Bound → Bound → Type 0
AboveOne z a b = (le a z ≡ true) ⊎ (le b z ≡ true)

abbrev pub BelowOne : Bound → Bound → Bound → Type 0
BelowOne z a b = (le z a ≡ true) ⊎ (le z b ≡ true)

module _ {l z u : Bound} (p : IsNormal l) (q : IsNormal z) (r : IsNormal u) (h : le l z ≡ true)
    (k : le z u ≡ true) where
  pub mul-AboveOne : {c : Bound} → IsNormal c → AboveOne (mul c z) (mul c l) (mul c u)
  mul-AboveOne minus_inf = inr (minus-le-minus q r k)
  mul-AboveOne (number_of (pos n)) = inl (
      rw (mul_comm (number_of (pos n)) p, mul_comm (number_of (pos n)) q)
        (mul-le-mul_nonneg n p q h))
  mul-AboveOne (number_of (negsuc n)) = inr (
      rw (mul_comm (number_of (negsuc n)) r, mul_comm (number_of (negsuc n)) q)
        (mul-le-mul_neg n q r k))
  mul-AboveOne plus_inf = inl (plus-le-plus p q h)

  pub mul-BelowOne : {c : Bound} → IsNormal c → BelowOne (mul c z) (mul c l) (mul c u)
  mul-BelowOne minus_inf = inl (minus-le-minus p q h)
  mul-BelowOne (number_of (pos n)) = inr (
      rw (mul_comm (number_of (pos n)) r, mul_comm (number_of (pos n)) q)
        (mul-le-mul_nonneg n q r k))
  mul-BelowOne (number_of (negsuc n)) = inl (
      rw (mul_comm (number_of (negsuc n)) p, mul_comm (number_of (negsuc n)) q)
        (mul-le-mul_neg n p q h))
  mul-BelowOne plus_inf = inr (plus-le-plus q r k)
