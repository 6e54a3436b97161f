-- ===== src/Crab/Interval/Members.antt =====
-- The numbers in an interval of src/crab/interval.hpp, and the invariant of the class: normal ends,
-- and one bottom.
use prevail.Prelude.{◌≡◌, refl, Bool, true, false, ◌&&◌, ◌⊎◌, inl, inr, arith, if◌then◌else◌}
use prevail.Prelude.Int.{ℤ, pos, negsuc}
use prevail.Arith.Extended
use prevail.Arith.Extended.{Bound, IsNormal, number_of, finite}
use prevail.Arith.Extended.Order.{le_trans}
use prevail.Crab.Interval.{Interval, interval, bottom, is_bottom, contains}

pub interval-cases :
    (l u : Bound)
    → ((Extended.le l u ≡ false) × (interval l u ≡ bottom))
      ⊎ ((Extended.le l u ≡ true) × (interval l u ≡ record { lb = l; ub = u }))
unfolding interval Extended.gt
interval-cases l u = ground arith

pub contains-bottom : (n : ℤ) → contains bottom n ≡ false
unfolding contains is_bottom Extended.gt Extended.le
contains-bottom n = refl

-- The interval constructed from two ends contains a number exactly if the number lies between the
-- ends, also where the ends are in the wrong order and the constructor makes bottom.
pub contains-interval :
    (l u : Bound) (n : ℤ)
    → contains (interval l u) n ≡ (Extended.le l (finite n) && Extended.le (finite n) u)
contains-interval l u n = elim (interval-cases l u) [
  | inl c ↦ rw (c.1, contains-bottom) (ground (arith, le_trans l (finite n) u))
  | inr c ↦ rw (c.1) (unfold contains is_bottom Extended.gt in rw (c.0))
]

-- A member shows that the interval is not empty.
pub not-is_bottom : (i : Interval) (n : ℤ) → contains i n ≡ true → is_bottom i ≡ false
unfolding contains
not-is_bottom i n h = ground arith

pub contains-lb : (i : Interval) (n : ℤ) → contains i n ≡ true → Extended.le i.lb (finite n) ≡ true
unfolding contains
contains-lb i n h = ground arith

pub contains-ub : (i : Interval) (n : ℤ) → contains i n ≡ true → Extended.le (finite n) i.ub ≡ true
unfolding contains
contains-ub i n h = ground arith

-- The test for bottom says that the ends are in the wrong order.
pub contains_of_bounds :
    (i : Interval) (n : ℤ)
    → Extended.le i.lb (finite n) ≡ true
    → Extended.le (finite n) i.ub ≡ true
    → contains i n ≡ true
unfolding contains is_bottom Extended.gt
contains_of_bounds i n h k = ground (arith, le_trans i.lb (finite n) i.ub h k)

-- The invariant that the constructors establish.
pub record IsValid (i : Interval) : Type 0 where
  pub lb_normal : IsNormal i.lb
  pub ub_normal : IsNormal i.ub
  pub canonical : is_bottom i ≡ true → i ≡ bottom

pub bottom-IsValid : IsValid bottom
bottom-IsValid = record {
  lb_normal = number_of (pos 0);
  ub_normal = number_of (negsuc 0);
  canonical = λ _. refl;
}

is_bottom-ends :
    (l u : Bound) → Extended.le l u ≡ true → is_bottom (record { lb = l; ub = u }) ≡ false
unfolding is_bottom Extended.gt
is_bottom-ends l u h = rw h

pub interval-IsValid : {l u : Bound} → IsNormal l → IsNormal u → IsValid (interval l u)
interval-IsValid {l} {u} p q = elim (interval-cases l u) [
  | inl c ↦ rw (c.1) bottom-IsValid
  | inr c ↦
      rw (c.1)
        (record { lb_normal = p; ub_normal = q; canonical = λ b. cc (is_bottom-ends l u c.0, b) })
]

pub if-IsValid : (b : Bool) {i x : Interval} → IsValid i → IsValid x → IsValid (if b then i else x)
if-IsValid true v w = v
if-IsValid false v w = w
