-- ===== src/Crab/Interval/Sums.antt =====
-- Sums, differences and negation of the intervals of src/crab/interval.hpp, and their members.
use prevail.Prelude.{◌≡◌, true, false, ◌||◌, arith}
use prevail.Prelude.Int.{ℤ, ◌+ℤ◌, ◌-ℤ◌, neg_ℤ}
use prevail.Prelude.Result.{Returns, returns, Returns-bind}
use prevail.Arith.Extended.{Bound}
use prevail.Arith.Extended.Sum.{
  LowerBound, UpperBound, add-LowerBound, add-UpperBound, sub-LowerBound, sub-UpperBound,
  neg-LowerBound, neg-UpperBound,
}
use prevail.Crab.Interval.{Interval, interval, is_bottom, contains, add, sub, neg}
use prevail.Crab.Interval.Members.{
  IsValid, contains-interval, contains-lb, contains-ub, not-is_bottom, interval-IsValid,
}

-- A valid interval that holds `n`.
abbrev pub Holds : ℤ → Interval → Type 0
Holds n i = IsValid i × (contains i n ≡ true)

pub lower : {i : Interval} (n : ℤ) → Holds n i → LowerBound n i.lb
lower {i} n (v, h) = (v.lb_normal, contains-lb i n h)

pub upper : {i : Interval} (n : ℤ) → Holds n i → UpperBound n i.ub
upper {i} n (v, h) = (v.ub_normal, contains-ub i n h)

pub interval-Holds :
    {l u : Bound} (n : ℤ) → LowerBound n l → UpperBound n u → Holds n (interval l u)
interval-Holds {l} {u} n (p, h) (q, k) = (interval-IsValid p q, rw (contains-interval l u n, h, k))

pub neither_empty :
    {i x : Interval} (n m : ℤ) → Holds n i → Holds m x → (is_bottom i || is_bottom x) ≡ false
neither_empty {i} {x} n m h k = ground (arith, not-is_bottom i n (h.1), not-is_bottom x m (k.1))

-- The sum of two valid intervals with members returns a valid interval that holds the sum of the
-- members.
pub add-Holds :
    {i x : Interval} (n m : ℤ) → Holds n i → Holds m x → Returns (Holds (n +ℤ m)) (add i x)
unfolding add
add-Holds n m h k = rw (neither_empty n m h k) (
    Returns-bind (add-LowerBound n m (lower n h) (lower m k)) λ l a.
      Returns-bind (add-UpperBound n m (upper n h) (upper m k))
        λ u b. returns (interval-Holds (n +ℤ m) a b))

-- The difference of two valid intervals with members returns a valid interval that holds the
-- difference of the members.
pub sub-Holds :
    {i x : Interval} (n m : ℤ) → Holds n i → Holds m x → Returns (Holds (n -ℤ m)) (sub i x)
unfolding sub
sub-Holds n m h k = rw (neither_empty n m h k) (
    Returns-bind (sub-LowerBound n m (lower n h) (upper m k)) λ l a.
      Returns-bind (sub-UpperBound n m (upper n h) (lower m k))
        λ u b. returns (interval-Holds (n -ℤ m) a b))

-- The negation of a valid interval is valid and holds the negation of each member.
pub neg-Holds : {i : Interval} (n : ℤ) → Holds n i → Holds (neg_ℤ n) (neg i)
unfolding neg
neg-Holds {i} n h =
    rw (not-is_bottom i n (h.1))
      (interval-Holds (neg_ℤ n) (neg-LowerBound n (upper n h)) (neg-UpperBound n (lower n h)))
