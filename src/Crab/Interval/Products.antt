-- ===== src/Crab/Interval/Products.antt =====
-- The product of src/crab/interval.cpp, and the products of the members.
use prevail.Prelude.{◌≡◌, true, ◌⊎◌, inl, inr}
use prevail.Prelude.Int.{ℤ, ◌*ℤ◌}
use prevail.Arith.Extended
use prevail.Arith.Extended.{Bound, IsNormal, number_of, finite}
use prevail.Arith.Extended.Order.{
  le_trans, min-le_left, min-le_right, le-max_left, le-max_right, min-IsNormal, max-IsNormal,
}
use prevail.Arith.Extended.Product.{
  AboveOne, BelowOne, mul-AboveOne, mul-BelowOne, mul-finite, mul-IsNormal, mul_comm,
}
use prevail.Crab.Interval.{Interval, min_of, max_of, mul}
use prevail.Crab.Interval.Sums.{Holds, lower, upper, interval-Holds, neither_empty}

min-le_one :
    {x y : Bound} (z : Bound)
    → IsNormal x
    → IsNormal y
    → AboveOne z x y
    → Extended.le (Extended.min x y) z ≡ true
min-le_one {x} {y} z p q (inl h) = le_trans _ x z (min-le_left x y p q) h
min-le_one {x} {y} z p q (inr h) = le_trans _ y z (min-le_right x y) h

le-max_one :
    {x y : Bound} (z : Bound)
    → IsNormal x
    → IsNormal y
    → BelowOne z x y
    → Extended.le z (Extended.max x y) ≡ true
le-max_one {x} {y} z p q (inl h) = le_trans z x _ h (le-max_left x y p q)
le-max_one {x} {y} z p q (inr h) = le_trans z y _ h (le-max_right x y)

module _ {a b c d : Bound} (p : IsNormal a) (q : IsNormal b) (r : IsNormal c) (s : IsNormal d) where
  min_of-IsNormal : IsNormal (min_of a b c d)
  unfolding min_of
  min_of-IsNormal = min-IsNormal _ _ (min-IsNormal _ _ (min-IsNormal _ _ p q) r) s

  max_of-IsNormal : IsNormal (max_of a b c d)
  unfolding max_of
  max_of-IsNormal = max-IsNormal _ _ (max-IsNormal _ _ (max-IsNormal _ _ p q) r) s

  -- What lies above one of the four lies above the smallest; what lies below one, below the largest.
  min_of-le : (z : Bound) → AboveOne z a b ⊎ AboveOne z c d → Extended.le (min_of a b c d) z ≡ true
  unfolding min_of
  min_of-le z h = min-le_one z (min-IsNormal _ _ (min-IsNormal _ _ p q) r) s (ends h)
    where
      ends : AboveOne z a b ⊎ AboveOne z c d → AboveOne z (Extended.min (Extended.min a b) c) d
      ends (inl h) = inl (min-le_one z (min-IsNormal _ _ p q) r (inl (min-le_one z p q h)))
      ends (inr (inl h)) = inl (min-le_one z (min-IsNormal _ _ p q) r (inr h))
      ends (inr (inr h)) = inr h

  le-max_of : (z : Bound) → BelowOne z a b ⊎ BelowOne z c d → Extended.le z (max_of a b c d) ≡ true
  unfolding max_of
  le-max_of z h = le-max_one z (max-IsNormal _ _ (max-IsNormal _ _ p q) r) s (ends h)
    where
      ends : BelowOne z a b ⊎ BelowOne z c d → BelowOne z (Extended.max (Extended.max a b) c) d
      ends (inl h) = inl (le-max_one z (max-IsNormal _ _ p q) r (inl (le-max_one z p q h)))
      ends (inr (inl h)) = inl (le-max_one z (max-IsNormal _ _ p q) r (inr h))
      ends (inr (inr h)) = inr h

AboveOne-trans : (z y a b : Bound) → Extended.le y z ≡ true → AboveOne y a b → AboveOne z a b
AboveOne-trans z y a b h (inl k) = inl (le_trans a y z k h)
AboveOne-trans z y a b h (inr k) = inr (le_trans b y z k h)

BelowOne-trans : (z y a b : Bound) → Extended.le z y ≡ true → BelowOne y a b → BelowOne z a b
BelowOne-trans z y a b h (inl k) = inl (le_trans z y a h k)
BelowOne-trans z y a b h (inr k) = inr (le_trans z y b h k)

-- A product of members lies between two of the four products of the ends.
module _ {i x : Interval} (n m : ℤ) (h : Holds n i) (k : Holds m x) where
  above_end :
      {e : Bound}
      → IsNormal e
      → AboveOne (Extended.mul e (finite m)) (Extended.mul e x.lb) (Extended.mul e x.ub)
  above_end p =
      mul-AboveOne ((lower m k).0) (number_of m) ((upper m k).0) ((lower m k).1) ((upper m k).1) p

  below_end :
      {e : Bound}
      → IsNormal e
      → BelowOne (Extended.mul e (finite m)) (Extended.mul e x.lb) (Extended.mul e x.ub)
  below_end p =
      mul-BelowOne ((lower m k).0) (number_of m) ((upper m k).0) ((lower m k).1) ((upper m k).1) p

  above_product :
      AboveOne (finite (n *ℤ m)) (Extended.mul i.lb (finite m)) (Extended.mul i.ub (finite m))
  above_product =
      rw
        (
          mul_comm ((lower n h).0) (number_of m),
          mul_comm ((upper n h).0) (number_of m),
          ← mul-finite n m,
          mul_comm (number_of n) (number_of m),
        )
        (mul-AboveOne ((lower n h).0) (number_of n) ((upper n h).0) ((lower n h).1) ((upper n h).1)
          (number_of m))

  below_product :
      BelowOne (finite (n *ℤ m)) (Extended.mul i.lb (finite m)) (Extended.mul i.ub (finite m))
  below_product =
      rw
        (
          mul_comm ((lower n h).0) (number_of m),
          mul_comm ((upper n h).0) (number_of m),
          ← mul-finite n m,
          mul_comm (number_of n) (number_of m),
        )
        (mul-BelowOne ((lower n h).0) (number_of n) ((upper n h).0) ((lower n h).1) ((upper n h).1)
          (number_of m))

  lowest_product :
      AboveOne (finite (n *ℤ m)) (Extended.mul i.lb x.lb) (Extended.mul i.lb x.ub)
      ⊎ AboveOne (finite (n *ℤ m)) (Extended.mul i.ub x.lb) (Extended.mul i.ub x.ub)
  lowest_product = elim above_product [
    | inl e ↦ inl (AboveOne-trans _ _ _ _ e (above_end ((lower n h).0)))
    | inr e ↦ inr (AboveOne-trans _ _ _ _ e (above_end ((upper n h).0)))
  ]

  highest_product :
      BelowOne (finite (n *ℤ m)) (Extended.mul i.lb x.lb) (Extended.mul i.lb x.ub)
      ⊎ BelowOne (finite (n *ℤ m)) (Extended.mul i.ub x.lb) (Extended.mul i.ub x.ub)
  highest_product = elim below_product [
    | inl e ↦ inl (BelowOne-trans _ _ _ _ e (below_end ((lower n h).0)))
    | inr e ↦ inr (BelowOne-trans _ _ _ _ e (below_end ((upper n h).0)))
  ]

  -- The product of two valid intervals is valid and holds the product of every member of the one
  -- and every member of the other, whether their ends are finite or not.
  pub mul-Holds : Holds (n *ℤ m) (mul i x)
  unfolding mul
  mul-Holds =
      let p = (lower n h).0 in
      let q = (upper n h).0 in
      let r = (lower m k).0 in
      let s = (upper m k).0 in
      rw (neither_empty n m h k) (
        interval-Holds (n *ℤ m)
          (
            min_of-IsNormal (mul-IsNormal p r) (mul-IsNormal p s) (mul-IsNormal q r)
                (mul-IsNormal q s),
            min_of-le (mul-IsNormal p r) (mul-IsNormal p s) (mul-IsNormal q r) (mul-IsNormal q s) _
                lowest_product,
          )
          (
            max_of-IsNormal (mul-IsNormal p r) (mul-IsNormal p s) (mul-IsNormal q r)
                (mul-IsNormal q s),
            le-max_of (mul-IsNormal p r) (mul-IsNormal p s) (mul-IsNormal q r) (mul-IsNormal q s) _
                highest_product,
          ))
