-- ===== src/Crab/Interval/Lattice.antt =====
-- Inclusion, `operator|` and `operator&` of the intervals of src/crab/interval.hpp.
use prevail.Prelude.{◌≡◌, true, false, ◌&&◌, ◌||◌, arith, Bool-cases, inl, inr}
use prevail.Prelude.Int.{ℤ}
use prevail.Arith.Extended
use prevail.Arith.Extended.{finite}
use prevail.Arith.Extended.Order.{
  le_refl, le_trans, le_antisymm, min-le_left, min-le_right, le-max_left, le-max_right, le-min,
  max-le, max-le_iff, le-min_iff, min-IsNormal, max-IsNormal,
}
use prevail.Crab.Interval.{Interval, interval, is_bottom, contains, le, join, meet}
use prevail.Crab.Interval.Members.{
  IsValid, contains-interval, contains-bottom, contains-lb, contains-ub, contains_of_bounds,
  not-is_bottom, bottom-IsValid, interval-IsValid, if-IsValid,
}

-- What the test says of the ends.
pub bounds_of_le :
    (i x : Interval)
    → le i x ≡ true
    → is_bottom i ≡ false
    → (is_bottom x ≡ false) × (Extended.le x.lb i.lb ≡ true) × (Extended.le i.ub x.ub ≡ true)
unfolding le
bounds_of_le i x h e = ground arith

pub not-empty : (i : Interval) → is_bottom i ≡ false → Extended.le i.lb i.ub ≡ true
unfolding is_bottom Extended.gt
not-empty i h = ground arith

pub bottom-le : (i x : Interval) → is_bottom i ≡ true → le i x ≡ true
unfolding le
bottom-le i x h = ground arith

pub le_of_bounds :
    (i x : Interval) → Extended.le x.lb i.lb ≡ true → Extended.le i.ub x.ub ≡ true → le i x ≡ true
unfolding le is_bottom Extended.gt
le_of_bounds i x h k = ground (arith, le_trans x.lb i.lb i.ub h, le_trans x.lb i.ub x.ub)

-- If an interval is included in another, each of its members is a member of the other.
pub le-contains :
    (i x : Interval) (n : ℤ) → le i x ≡ true → contains i n ≡ true → contains x n ≡ true
unfolding le
le-contains i x n h m =
    let ends = bounds_of_le i x h (not-is_bottom i n m) in
    contains_of_bounds x n (le_trans _ _ _ ends.1 (contains-lb i n m))
      (le_trans _ _ _ (contains-ub i n m) ends.2)

pub le_refl_lem : (i : Interval) → le i i ≡ true
unfolding le
le_refl_lem i = ground (arith, le_refl i.lb, le_refl i.ub)

-- Inclusion of intervals is transitive.
le_trans_lem : (i x y : Interval) → le i x ≡ true → le x y ≡ true → le i y ≡ true
unfolding le
le_trans_lem i x y h k = ground (arith, le_trans y.lb x.lb i.lb, le_trans i.ub x.ub y.ub)

-- Two valid intervals, each included in the other, are equal.
le_antisymm_lem : (i x : Interval) → IsValid i → IsValid x → le i x ≡ true → le x i ≡ true → i ≡ x
unfolding le
le_antisymm_lem i x v w h k =
    ground (arith, v.canonical, w.canonical, le_antisymm i.lb x.lb, le_antisymm i.ub x.ub)

-- The join of valid intervals has ends that are numbers or normal infinities, and is bottom only
-- as [0, -1].
pub join-IsValid : (i x : Interval) → IsValid i → IsValid x → IsValid (join i x)
unfolding join
join-IsValid i x v w = if-IsValid _ w (
    if-IsValid _ v (
      interval-IsValid (min-IsNormal _ _ v.lb_normal w.lb_normal)
        (max-IsNormal _ _ v.ub_normal w.ub_normal)))

-- The meet of valid intervals has ends that are numbers or normal infinities, and is bottom only
-- as [0, -1].
pub meet-IsValid : (i x : Interval) → IsValid i → IsValid x → IsValid (meet i x)
unfolding meet
meet-IsValid i x v w = if-IsValid _ bottom-IsValid (
    interval-IsValid (max-IsNormal _ _ v.lb_normal w.lb_normal)
      (min-IsNormal _ _ v.ub_normal w.ub_normal))

-- The members of the meet of two valid intervals are exactly their common members.
pub contains-meet :
    (i x : Interval) (n : ℤ)
    → IsValid i
    → IsValid x
    → contains (meet i x) n ≡ (contains i n && contains x n)
unfolding meet
contains-meet i x n v w = elim (Bool-cases (is_bottom i || is_bottom x)) [
  | inl e ↦ rw (e, contains-bottom) (unfold contains in ground arith)
  | inr e ↦
      rw
        (
          e,
          contains-interval,
          max-le_iff _ _ _ v.lb_normal w.lb_normal,
          le-min_iff _ _ _ v.ub_normal w.ub_normal,
        )
        (unfold contains in ground arith)
]

-- Neither is empty, so their hull is what the constructor keeps.
join_ends :
    (i x : Interval)
    → IsValid i
    → IsValid x
    → is_bottom i ≡ false
    → is_bottom x ≡ false
    → join i x ≡ record { lb = Extended.min i.lb x.lb; ub = Extended.max i.ub x.ub }
unfolding join is_bottom interval Extended.gt
join_ends i x v w h k =
    let m = Extended.min i.lb x.lb in
    let u = Extended.max i.ub x.ub in
    let a = min-le_left i.lb x.lb v.lb_normal w.lb_normal in
    let b = le-max_left i.ub x.ub v.ub_normal w.ub_normal in
    ground (arith, le_trans m i.lb i.ub a, le_trans m i.ub u, b)

join_empty_left : (i x : Interval) → is_bottom i ≡ true → join i x ≡ x
unfolding join
join_empty_left i x h = rw h

join_empty_right : (i x : Interval) → is_bottom i ≡ false → is_bottom x ≡ true → join i x ≡ i
unfolding join
join_empty_right i x h k = rw (h, k)

-- The join of two valid intervals includes both.
pub le-join :
    (i x : Interval) → IsValid i → IsValid x → (le i (join i x) ≡ true) × (le x (join i x) ≡ true)
le-join i x v w = elim (Bool-cases (is_bottom i)) [
  | inl e ↦ rw (join_empty_left i x e) (bottom-le i x e, le_refl_lem x)
  | inr e ↦ elim (Bool-cases (is_bottom x)) [
    | inl f ↦ rw (join_empty_right i x e f) (le_refl_lem i, bottom-le x i f)
    | inr f ↦ rw (join_ends i x v w e f) (
      le_of_bounds i _ (min-le_left _ _ v.lb_normal w.lb_normal)
          (le-max_left _ _ v.ub_normal w.ub_normal),
      le_of_bounds x _ (min-le_right i.lb x.lb) (le-max_right i.ub x.ub),
    )
  ]
]

-- The join of two valid intervals is included in every interval that includes both.
pub join-le :
    (i x z : Interval)
    → IsValid i
    → IsValid x
    → le i z ≡ true
    → le x z ≡ true
    → le (join i x) z ≡ true
join-le i x z v w h k = elim (Bool-cases (is_bottom i)) [
  | inl e ↦ rw (join_empty_left i x e) k
  | inr e ↦ elim (Bool-cases (is_bottom x)) [
    | inl f ↦ rw (join_empty_right i x e f) h
    | inr f ↦
        let a = bounds_of_le i z h e in
        let b = bounds_of_le x z k f in
        rw (join_ends i x v w e f) (le_of_bounds _ z (le-min _ _ _ a.1 b.1) (max-le _ _ _ a.2 b.2))
  ]
]
