-- ===== src/Crab/Interval/Operations.antt =====
-- The order, the sums and the lattice operations of src/crab/interval.hpp, taken together.
use prevail.Prelude.{◌≡◌, true}
use prevail.Prelude.Int.{ℤ, ◌+ℤ◌, ◌-ℤ◌, neg_ℤ}
use prevail.Prelude.Result.{Returns}
use prevail.Crab.Interval.{Interval, le, join, meet, widen, narrow, add, sub, neg}
use prevail.Crab.Interval.Members.{IsValid}
use prevail.Crab.Interval.Lattice.{join-IsValid, meet-IsValid, le-join, join-le}
use prevail.Crab.Interval.Widening.{widen-IsValid}
use prevail.Crab.Interval.Narrowing.{narrow-IsValid}
use prevail.Crab.Interval.Sums.{Holds, add-Holds, sub-Holds, neg-Holds}

-- The join, the meet, the widening and the narrowing of two valid intervals are valid: they have
-- ends that are numbers or normal infinities, and are bottom only as [0, -1].
pub operations-IsValid :
    (i x : Interval)
    → IsValid i
    → IsValid x
    → IsValid (join i x) × IsValid (meet i x) × IsValid (widen i x) × IsValid (narrow i x)
operations-IsValid i x v w =
    (join-IsValid i x v w, meet-IsValid i x v w, widen-IsValid i x v w, narrow-IsValid i x v w)

-- The join of two valid intervals includes both and is included in every interval that includes
-- both.
pub join-least :
    (i x : Interval)
    → IsValid i
    → IsValid x
    → (le i (join i x) ≡ true)
      × (le x (join i x) ≡ true)
      × ((z : Interval) → le i z ≡ true → le x z ≡ true → le (join i x) z ≡ true)
join-least i x v w = let both = le-join i x v w in (both.0, both.1, λ z h k. join-le i x z v w h k)

-- The sum and the difference of two valid intervals with members return valid intervals that hold
-- the sum and the difference of the members, and the negation is valid and holds the negation of
-- a member.
pub sums-Hold :
    (i x : Interval) (n m : ℤ)
    → Holds n i
    → Holds m x
    → Returns (Holds (n +ℤ m)) (add i x)
      × Returns (Holds (n -ℤ m)) (sub i x)
      × Holds (neg_ℤ n) (neg i)
sums-Hold i x n m h k = (add-Holds n m h k, sub-Holds n m h k, neg-Holds n h)
