-- ===== src/Crab/Interval/Narrowing.antt =====
-- Narrowing of the intervals of src/crab/interval.hpp, against their order.
use prevail.Prelude.{◌≡◌, refl, true, false, ◌&&◌, ◌||◌, arith, Bool-cases, inl, inr, if◌then◌else◌}
use prevail.Arith.Extended
use prevail.Arith.Extended.{Bound, IsNormal, is_finite}
use prevail.Arith.Extended.Order.{if-IsNormal, le_refl, le_trans}
use prevail.Crab.Interval.{Interval, bottom, is_bottom, le, narrow}
use prevail.Crab.Interval.Members.{
  IsValid, interval-IsValid, interval-cases, if-IsValid, bottom-IsValid,
}
use prevail.Crab.Interval.Lattice.{bottom-le, bounds_of_le, not-empty, le_of_bounds}

-- The two ends of a narrowing.
abbrev narrow_end : Bound → Bound → Bound
narrow_end a b = if a.is_infinite && is_finite b then b else a

-- The narrowing of valid intervals has ends that are numbers or normal infinities, and is bottom
-- only as [0, -1].
pub narrow-IsValid : (i x : Interval) → IsValid i → IsValid x → IsValid (narrow i x)
unfolding narrow
narrow-IsValid i x v w = if-IsValid _ bottom-IsValid (
    interval-IsValid (if-IsNormal _ w.lb_normal v.lb_normal)
      (if-IsNormal _ w.ub_normal v.ub_normal))

-- An end of the narrowing lies between the two ends, on either side.
end_between :
    (a b : Bound)
    → Extended.le a b ≡ true
    → (Extended.le a (narrow_end a b) ≡ true) × (Extended.le (narrow_end a b) b ≡ true)
end_between a b h = ground (arith, le_refl a, le_refl b)

end_between_down :
    (a b : Bound)
    → Extended.le b a ≡ true
    → (Extended.le (narrow_end a b) a ≡ true) × (Extended.le b (narrow_end a b) ≡ true)
end_between_down a b h = ground (arith, le_refl a, le_refl b)

narrow_ends :
    (i x : Interval)
    → is_bottom i ≡ false
    → is_bottom x ≡ false
    → le x i ≡ true
    → narrow i x ≡ record { lb = narrow_end i.lb x.lb; ub = narrow_end i.ub x.ub }
unfolding narrow
narrow_ends i x e f h =
    let b = bounds_of_le x i h f in
    let l = end_between i.lb x.lb (b.1) in
    let u = end_between_down i.ub x.ub (b.2) in
    let m = narrow_end i.lb x.lb in
    let k = narrow_end i.ub x.ub in
    let ordered : Extended.le m k ≡ true =
      le_trans m x.lb k (l.1) (le_trans x.lb x.ub k (not-empty x f) (u.1)) in
    elim (interval-cases m k) [ inl c ↦ cc (c.0, ordered) | inr c ↦ rw (e, f) (c.1) ]

bottom-is_bottom : is_bottom bottom ≡ true
unfolding is_bottom Extended.gt Extended.le
bottom-is_bottom = refl

narrow_empty :
    (i x : Interval) → (is_bottom i || is_bottom x) ≡ true → is_bottom (narrow i x) ≡ true
unfolding narrow
narrow_empty i x e = rw e bottom-is_bottom

-- The narrowing of an interval by an interval that it includes lies between the two.
narrow_between :
    (i x : Interval) → le x i ≡ true → (le x (narrow i x) ≡ true) × (le (narrow i x) i ≡ true)
narrow_between i x h = elim (Bool-cases (is_bottom x)) [
  | inl f ↦ (bottom-le x _ f, bottom-le _ i (narrow_empty i x (ground arith)))
  | inr f ↦
      let b = bounds_of_le x i h f in
      let l = end_between i.lb x.lb (b.1) in
      let u = end_between_down i.ub x.ub (b.2) in
      rw (narrow_ends i x (b.0) f h) (le_of_bounds x _ (l.1) (u.1), le_of_bounds _ i (l.0) (u.0))
]
