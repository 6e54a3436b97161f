-- ===== src/Crab/Interval/Widening.antt =====
-- Widening of the intervals of src/crab/interval.hpp, and chains of widenings.
use Prim.Native.Nat.{zero-le}
use prevail.Prelude.{
  List, [], ◌∷◌, ℕ, ◌+◌, ◌≤◌, ◌<◌, ◌≡◌, refl, true, false, ◌⊎◌, inl, inr, arith, Bool-cases,
  if◌then◌else◌,
}
use prevail.Arith.Extended
use prevail.Arith.Extended.{
  Bound, IsNormal, minus_inf, plus_inf, number_of, finite, minus_infinity, plus_infinity,
}
use prevail.Arith.Extended.Order.{if-IsNormal, ge-le, le_refl, le_trans}
use prevail.Crab.Interval.{Interval, is_bottom, le, widen}
use prevail.Crab.Interval.Members.{IsValid, interval-IsValid, interval-cases, if-IsValid}
use prevail.Crab.Interval.Lattice.{bottom-le, bounds_of_le, not-empty, le_of_bounds, le_refl_lem}

minus-le : {x : Bound} → IsNormal x → Extended.le minus_infinity x ≡ true
unfolding Extended.le
minus-le minus_inf = refl
minus-le (number_of n) = refl
minus-le plus_inf = refl

le-plus : {x : Bound} → IsNormal x → Extended.le x plus_infinity ≡ true
unfolding Extended.le
le-plus minus_inf = refl
le-plus (number_of n) = refl
le-plus plus_inf = refl

-- The two ends of a widening.
abbrev widen_lb : Bound → Bound → Bound
widen_lb a b = if Extended.lt b a then minus_infinity else a

abbrev widen_ub : Bound → Bound → Bound
widen_ub a b = if Extended.lt a b then plus_infinity else a

widen_lb-IsNormal : {a : Bound} (b : Bound) → IsNormal a → IsNormal (widen_lb a b)
widen_lb-IsNormal b p = if-IsNormal _ minus_inf p

widen_ub-IsNormal : {a : Bound} (b : Bound) → IsNormal a → IsNormal (widen_ub a b)
widen_ub-IsNormal b p = if-IsNormal _ plus_inf p

-- The widening of valid intervals has ends that are numbers or normal infinities, and is bottom
-- only as [0, -1].
pub widen-IsValid : (i x : Interval) → IsValid i → IsValid x → IsValid (widen i x)
unfolding widen
widen-IsValid i x v w = if-IsValid _ w (
    if-IsValid _ v
      (interval-IsValid (widen_lb-IsNormal x.lb v.lb_normal) (widen_ub-IsNormal x.ub v.ub_normal)))

widen_lb-le :
    (a b : Bound)
    → IsNormal a
    → IsNormal b
    → (Extended.le (widen_lb a b) a ≡ true) × (Extended.le (widen_lb a b) b ≡ true)
unfolding Extended.lt
widen_lb-le a b p q = ground (arith, minus-le p, minus-le q, le_refl a, ge-le b a)

le-widen_ub :
    (a b : Bound)
    → IsNormal a
    → IsNormal b
    → (Extended.le a (widen_ub a b) ≡ true) × (Extended.le b (widen_ub a b) ≡ true)
unfolding Extended.lt
le-widen_ub a b p q = ground (arith, le-plus p, le-plus q, le_refl a, ge-le a b)

widen_empty_left : (i x : Interval) → is_bottom i ≡ true → widen i x ≡ x
unfolding widen
widen_empty_left i x h = rw h

widen_empty_right : (i x : Interval) → is_bottom i ≡ false → is_bottom x ≡ true → widen i x ≡ i
unfolding widen
widen_empty_right i x h k = rw (h, k)

widen_ends :
    (i x : Interval)
    → IsValid i
    → IsValid x
    → is_bottom i ≡ false
    → is_bottom x ≡ false
    → widen i x ≡ record { lb = widen_lb i.lb x.lb; ub = widen_ub i.ub x.ub }
unfolding widen
widen_ends i x v w h k =
    let l = widen_lb i.lb x.lb in
    let u = widen_ub i.ub x.ub in
    let a = widen_lb-le i.lb x.lb v.lb_normal w.lb_normal in
    let b = le-widen_ub i.ub x.ub v.ub_normal w.ub_normal in
    let ordered : Extended.le l u ≡ true =
      le_trans l i.lb u (a.0) (le_trans i.lb i.ub u (not-empty i h) (b.0)) in
    elim (interval-cases l u) [ inl c ↦ cc (c.0, ordered) | inr c ↦ rw (h, k) (c.1) ]

-- The widening of two valid intervals includes both.
pub le-widen :
    (i x : Interval) → IsValid i → IsValid x → (le i (widen i x) ≡ true) × (le x (widen i x) ≡ true)
le-widen i x v w = elim (Bool-cases (is_bottom i)) [
  | inl e ↦ rw (widen_empty_left i x e) (bottom-le i x e, le_refl_lem x)
  | inr e ↦ elim (Bool-cases (is_bottom x)) [
    | inl f ↦ rw (widen_empty_right i x e f) (le_refl_lem i, bottom-le x i f)
    | inr f ↦
        let a = widen_lb-le i.lb x.lb v.lb_normal w.lb_normal in
        let b = le-widen_ub i.ub x.ub v.ub_normal w.ub_normal in
        rw (widen_ends i x v w e f) (le_of_bounds i _ (a.0) (b.0), le_of_bounds x _ (a.1) (b.1))
  ]
]

-- How often an interval can still change by widening: bottom, then each end not yet infinite.
abbrev lb_rank : Bound → ℕ
lb_rank b = if Extended.is_minus_infinity b then 0 else 1

abbrev ub_rank : Bound → ℕ
ub_rank b = if Extended.is_plus_infinity b then 0 else 1

pub rank : Interval → ℕ
rank i = if is_bottom i then 3 else lb_rank i.lb + ub_rank i.ub

pub rank-le-three : (i : Interval) → rank i ≤ 3
unfolding rank
rank-le-three i = ground arith

lb_falls :
    {a b : Bound}
    → IsNormal a
    → IsNormal b
    → (Extended.le a b ≡ true) ⊎ (lb_rank (widen_lb a b) < lb_rank a)
unfolding Extended.lt Extended.ge Extended.le Extended.is_minus_infinity
lb_falls minus_inf minus_inf = ground arith
lb_falls minus_inf (number_of m) = ground arith
lb_falls minus_inf plus_inf = ground arith
lb_falls (number_of n) minus_inf = ground arith
lb_falls (number_of n) (number_of m) = ground arith
lb_falls (number_of n) plus_inf = ground arith
lb_falls plus_inf minus_inf = ground arith
lb_falls plus_inf (number_of m) = ground arith
lb_falls plus_inf plus_inf = ground arith

ub_falls :
    {a b : Bound}
    → IsNormal a
    → IsNormal b
    → (Extended.le b a ≡ true) ⊎ (ub_rank (widen_ub a b) < ub_rank a)
unfolding Extended.lt Extended.ge Extended.le Extended.is_plus_infinity
ub_falls minus_inf minus_inf = ground arith
ub_falls minus_inf (number_of m) = ground arith
ub_falls minus_inf plus_inf = ground arith
ub_falls (number_of n) minus_inf = ground arith
ub_falls (number_of n) (number_of m) = ground arith
ub_falls (number_of n) plus_inf = ground arith
ub_falls plus_inf minus_inf = ground arith
ub_falls plus_inf (number_of m) = ground arith
ub_falls plus_inf plus_inf = ground arith

lb_rank-le : (a b : Bound) → lb_rank (widen_lb a b) ≤ lb_rank a
unfolding Extended.is_minus_infinity
lb_rank-le a b = ground arith

ub_rank-le : (a b : Bound) → ub_rank (widen_ub a b) ≤ ub_rank a
unfolding Extended.is_plus_infinity
ub_rank-le a b = ground arith

rank_ends : (i : Interval) → is_bottom i ≡ false → rank i ≡ lb_rank i.lb + ub_rank i.ub
unfolding rank
rank_ends i h = rw h

rank_not_bottom-le : (i : Interval) → is_bottom i ≡ false → rank i ≤ 2
unfolding rank
rank_not_bottom-le i h = ground arith

rank_bottom : (i : Interval) → is_bottom i ≡ true → rank i ≡ 3
unfolding rank
rank_bottom i h = rw h

widen_not_bottom :
    (i x : Interval) → IsValid i → IsValid x → is_bottom i ≡ false → is_bottom (widen i x) ≡ false
widen_not_bottom i x v w h = (bounds_of_le i (widen i x) ((le-widen i x v w).0) h).0

-- The widening of a valid interval by a valid interval that it does not include has a lower rank:
-- fewer ends that can still move.
pub rank-widen-lt :
    (i x : Interval) → IsValid i → IsValid x → (le x i ≡ true) ⊎ (rank (widen i x) < rank i)
rank-widen-lt i x v w = elim (Bool-cases (is_bottom x)) [
  | inl f ↦ inl (bottom-le x i f)
  | inr f ↦ elim (Bool-cases (is_bottom i)) [
    | inl e ↦
        inr (rw (widen_empty_left i x e) (omega (arith, rank_bottom i e, rank_not_bottom-le x f)))
    | inr e ↦ elim (lb_falls v.lb_normal w.lb_normal) [
      | inl a ↦ elim (ub_falls v.ub_normal w.ub_normal) [
        | inl b ↦ inl (le_of_bounds x i a b)
        | inr b ↦ inr (drop e f (omega (arith, b, lb_rank-le i.lb x.lb)))
      ]
      | inr a ↦ inr (drop e f (omega (arith, a, ub_rank-le i.ub x.ub)))
    ]
  ]
]
  where
    drop :
        is_bottom i ≡ false
        → is_bottom x ≡ false
        → lb_rank (widen_lb i.lb x.lb) + ub_rank (widen_ub i.ub x.ub) < lb_rank i.lb + ub_rank i.ub
        → rank (widen i x) < rank i
    drop e f h =
        rw
          (
            rank_ends (widen i x) (widen_not_bottom i x v w e),
            rank_ends i e,
            widen_ends i x v w e f,
          )
          h

-- Of the successive widenings of `i` by a sequence of intervals, how many were needed: the interval
-- was not included yet.
pub changes : Interval → List Interval → ℕ
changes i [] = 0
changes i (x ∷ xs) = (if le x i then 0 else 1) + changes (widen i x) xs

abbrev pub AllValid : List Interval → Type 0
AllValid [] = Unit
AllValid (x ∷ xs) = IsValid x × AllValid xs

rank-widen-le : (i x : Interval) → IsValid i → IsValid x → rank (widen i x) ≤ rank i
rank-widen-le i x v w = elim (Bool-cases (is_bottom i)) [
  | inl e ↦ omega (arith, rank_bottom i e, rank-le-three (widen i x))
  | inr e ↦ elim (Bool-cases (is_bottom x)) [
    | inl f ↦ rw (widen_empty_right i x e f) (omega arith)
    | inr f ↦
        rw
          (
            rank_ends (widen i x) (widen_not_bottom i x v w e),
            rank_ends i e,
            widen_ends i x v w e f,
          )
          (omega (arith, lb_rank-le i.lb x.lb, ub_rank-le i.ub x.ub))
  ]
]

changes-le-rank :
    (i : Interval) (xs : List Interval) → IsValid i → AllValid xs → changes i xs ≤ rank i
unfolding changes
changes-le-rank i [] v vs = zero-le
changes-le-rank i (x ∷ xs) v (w, vs) = ground (
  arith,
  rank-widen-lt i x v w,
  rank-widen-le i x v w,
  changes-le-rank (widen i x) xs (widen-IsValid i x v w) vs,
)

-- From a valid interval, in a sequence of widenings by valid intervals of any length, at most
-- three find an interval that was not included yet.
pub changes-le-three :
    (i : Interval) (xs : List Interval) → IsValid i → AllValid xs → changes i xs ≤ 3
changes-le-three i xs v vs = omega (arith, changes-le-rank i xs v vs, rank-le-three i)
