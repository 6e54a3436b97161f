-- ===== src/Arith/Extended/Sum.antt =====
-- Sums, differences and negation of the bounds of src/arith/num_extended.hpp.
use prevail.Prelude.{◌≡◌, true, arith}
use prevail.Prelude.Int.{ℤ, ◌+ℤ◌, ◌-ℤ◌, neg_ℤ, int_laws, +ℤ_parts, neg_ℤ_parts}
use prevail.Prelude.Result.{Returns, returns}
use prevail.Arith.Extended.{
  Bound, IsNormal, minus_inf, number_of, plus_inf, finite, neg, add, sub, le,
}

pub neg-IsNormal : {x : Bound} → IsNormal x → IsNormal (neg x)
unfolding neg
neg-IsNormal minus_inf = plus_inf
neg-IsNormal (number_of n) = number_of (neg_ℤ n)
neg-IsNormal plus_inf = minus_inf

pub le-neg : {x y : Bound} → IsNormal x → IsNormal y → le x y ≡ true → le (neg y) (neg x) ≡ true
unfolding neg le
le-neg minus_inf minus_inf h = ground arith
le-neg minus_inf (number_of m) h = ground arith
le-neg minus_inf plus_inf h = ground arith
le-neg (number_of n) minus_inf h = ground arith
le-neg (number_of n) (number_of m) h = ground (arith, neg_ℤ_parts n, neg_ℤ_parts m)
le-neg (number_of n) plus_inf h = ground arith
le-neg plus_inf minus_inf h = ground arith
le-neg plus_inf (number_of m) h = ground arith
le-neg plus_inf plus_inf h = ground arith

-- The sum of two lower bounds exists, and bounds the sum.
abbrev pub LowerBound : ℤ → Bound → Type 0
LowerBound n b = IsNormal b × (le b (finite n) ≡ true)

abbrev pub UpperBound : ℤ → Bound → Type 0
UpperBound n b = IsNormal b × (le (finite n) b ≡ true)

pub add-LowerBound :
    {x y : Bound} (n m : ℤ)
    → LowerBound n x
    → LowerBound m y
    → Returns (LowerBound (n +ℤ m)) (add x y)
unfolding add le
add-LowerBound n m (minus_inf, h) (minus_inf, k) = returns (minus_inf, ground arith)
add-LowerBound n m (minus_inf, h) (number_of b, k) = returns (minus_inf, ground arith)
add-LowerBound n m (minus_inf, h) (plus_inf, k) = ground arith
add-LowerBound n m (number_of a, h) (minus_inf, k) = returns (minus_inf, ground arith)
add-LowerBound n m (number_of a, h) (number_of b, k) =
    returns (number_of _, ground (arith, +ℤ_parts n m, +ℤ_parts a b))
add-LowerBound n m (number_of a, h) (plus_inf, k) = ground arith
add-LowerBound n m (plus_inf, h) _ = ground arith

pub add-UpperBound :
    {x y : Bound} (n m : ℤ)
    → UpperBound n x
    → UpperBound m y
    → Returns (UpperBound (n +ℤ m)) (add x y)
unfolding add le
add-UpperBound n m (plus_inf, h) (plus_inf, k) = returns (plus_inf, ground arith)
add-UpperBound n m (plus_inf, h) (number_of b, k) = returns (plus_inf, ground arith)
add-UpperBound n m (plus_inf, h) (minus_inf, k) = ground arith
add-UpperBound n m (number_of a, h) (plus_inf, k) = returns (plus_inf, ground arith)
add-UpperBound n m (number_of a, h) (number_of b, k) =
    returns (number_of _, ground (arith, +ℤ_parts n m, +ℤ_parts a b))
add-UpperBound n m (number_of a, h) (minus_inf, k) = ground arith
add-UpperBound n m (minus_inf, h) _ = ground arith

pub neg-LowerBound : {x : Bound} (n : ℤ) → UpperBound n x → LowerBound (neg_ℤ n) (neg x)
unfolding neg
neg-LowerBound n (p, h) = (neg-IsNormal p, le-neg (number_of n) p h)

pub neg-UpperBound : {x : Bound} (n : ℤ) → LowerBound n x → UpperBound (neg_ℤ n) (neg x)
unfolding neg
neg-UpperBound n (p, h) = (neg-IsNormal p, le-neg p (number_of n) h)

pub -ℤ-eq-+ℤ-neg_ℤ : (n m : ℤ) → n -ℤ m ≡ n +ℤ neg_ℤ m
-ℤ-eq-+ℤ-neg_ℤ n m = omega int_laws

pub sub-LowerBound :
    {x y : Bound} (n m : ℤ)
    → LowerBound n x
    → UpperBound m y
    → Returns (LowerBound (n -ℤ m)) (sub x y)
unfolding sub
sub-LowerBound n m h k = rw (-ℤ-eq-+ℤ-neg_ℤ n m) (add-LowerBound n (neg_ℤ m) h (neg-LowerBound m k))

pub sub-UpperBound :
    {x y : Bound} (n m : ℤ)
    → UpperBound n x
    → LowerBound m y
    → Returns (UpperBound (n -ℤ m)) (sub x y)
unfolding sub
sub-UpperBound n m h k = rw (-ℤ-eq-+ℤ-neg_ℤ n m) (add-UpperBound n (neg_ℤ m) h (neg-UpperBound m k))
