-- ===== src/Arith/Extended/Order.antt =====
-- The order of the bounds of src/arith/num_extended.hpp, and their normal form.
use prevail.Prelude.{◌≡◌, Bool, true, false, ◌&&◌, ◌⊎◌, arith, if◌then◌else◌}
use prevail.Prelude.Int.{eq_of_parts}
use prevail.Arith.Extended.{Bound, IsNormal, minus_inf, number_of, plus_inf, le, ge, lt, min, max}

pub ge-le : (x y : Bound) → ge x y ≡ le y x
unfolding ge le
ge-le x y = ground arith

pub le_refl : (x : Bound) → le x x ≡ true
unfolding le
le_refl x = ground arith

pub le_trans : (x y z : Bound) → le x y ≡ true → le y z ≡ true → le x z ≡ true
unfolding le
le_trans x y z h k = ground arith

pub le_total : {x y : Bound} → IsNormal x → IsNormal y → (le x y ≡ true) ⊎ (le y x ≡ true)
unfolding le
le_total minus_inf minus_inf = ground arith
le_total minus_inf (number_of m) = ground arith
le_total minus_inf plus_inf = ground arith
le_total (number_of n) minus_inf = ground arith
le_total (number_of n) (number_of m) = ground arith
le_total (number_of n) plus_inf = ground arith
le_total plus_inf minus_inf = ground arith
le_total plus_inf (number_of m) = ground arith
le_total plus_inf plus_inf = ground arith

-- Two bounds each below the other are the same number or the same infinity.
pub le_antisymm : (x y : Bound) → le x y ≡ true → le y x ≡ true → x ≡ y
unfolding le
le_antisymm x y h k = ground (arith, eq_of_parts x.n y.n)

pub min-le_left : (x y : Bound) → IsNormal x → IsNormal y → le (min x y) x ≡ true
unfolding min lt
min-le_left x y p q = ground (arith, le_total p q, le_refl x, ge-le y x)

pub min-le_right : (x y : Bound) → le (min x y) y ≡ true
unfolding min lt
min-le_right x y = ground (arith, le_refl y, ge-le y x)

pub le-max_left : (x y : Bound) → IsNormal x → IsNormal y → le x (max x y) ≡ true
unfolding max lt
le-max_left x y p q = ground (arith, le_total p q, le_refl x, ge-le x y)

pub le-max_right : (x y : Bound) → le y (max x y) ≡ true
unfolding max lt
le-max_right x y = ground (arith, le_refl y, ge-le x y)

pub le-min : (z x y : Bound) → le z x ≡ true → le z y ≡ true → le z (min x y) ≡ true
unfolding min
le-min z x y h k = ground arith

pub max-le : (x y z : Bound) → le x z ≡ true → le y z ≡ true → le (max x y) z ≡ true
unfolding max
max-le x y z h k = ground arith

pub min-IsNormal : (x y : Bound) → IsNormal x → IsNormal y → IsNormal (min x y)
unfolding min
min-IsNormal x y p q = ground arith

pub max-IsNormal : (x y : Bound) → IsNormal x → IsNormal y → IsNormal (max x y)
unfolding max
max-IsNormal x y p q = ground arith

pub max-le_iff : (x y z : Bound) → IsNormal x → IsNormal y → le (max x y) z ≡ (le x z && le y z)
unfolding max lt
max-le_iff x y z p q = ground (arith, le_total p q, ge-le x y, le_trans x y z, le_trans y x z)

pub le-min_iff : (x y z : Bound) → IsNormal x → IsNormal y → le z (min x y) ≡ (le z x && le z y)
unfolding min lt
le-min_iff x y z p q = ground (arith, le_total p q, ge-le y x, le_trans z x y, le_trans z y x)

pub if-IsNormal : (b : Bool) {x y : Bound} → IsNormal x → IsNormal y → IsNormal (if b then x else y)
if-IsNormal true p q = p
if-IsNormal false p q = q
