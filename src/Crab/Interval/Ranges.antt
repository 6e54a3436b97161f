-- ===== src/Crab/Interval/Ranges.antt =====
-- The shape of the extensions of src/crab/interval.cpp, for any extension of numbers to a range.
use prevail.Prelude.{
  ◌≡◌, refl, ap, ◌∙◌, true, false, arith, Bool-cases, inl, inr, ◌⊎◌, Bool, not, if◌then◌else◌,
}
use prevail.Prelude.Int.{ℤ, pos, ◌+ℤ◌, neg_ℤ, ◌≤ℤ◌, ◌<ℤ◌, leb_ℤ, leb_ℤ_iff, +ℤ_parts}
use prevail.Prelude.Result.{Result, ok, Returns, returns}
use prevail.Arith.Extended
use prevail.Arith.Extended.{
  Bound, IsNormal, minus_inf, number_of, plus_inf, finite, plus_infinity, minus_infinity,
}
use prevail.Crab.Interval.{Interval, interval, is_bottom, contains, size}
use prevail.Crab.Interval.Members.{
  IsValid, contains-interval, contains-lb, contains-ub, contains-bottom, interval-cases,
  not-is_bottom,
}
use prevail.Crab.Interval.Bits.{extend}

no_upper : (n : ℤ) → ¬ (Extended.le (finite n) minus_infinity ≡ true)
unfolding Extended.le
no_upper n h = cc

no_lower : (n : ℤ) → ¬ (Extended.le plus_infinity (finite n) ≡ true)
unfolding Extended.le
no_lower n h = cc

-- The size of an interval with two finite ends, and of one without.
size_finite :
    (i : Interval) (l u : ℤ)
    → i.lb ≡ finite l
    → i.ub ≡ finite u
    → is_bottom i ≡ false
    → size i ≡ ok (finite (u +ℤ neg_ℤ l +ℤ pos 1))
unfolding size Extended.sub Extended.add Extended.neg
size_finite i l u p q h = simp (h, p, q)

size_unbounded :
    {l u : Bound} (n : ℤ)
    → IsNormal l
    → IsNormal u
    → contains (record { lb = l; ub = u }) n ≡ true
    → (size (record { lb = l; ub = u }) ≡ ok plus_infinity)
      ⊎ ((a : ℤ) × (b : ℤ) × (l ≡ finite a) × (u ≡ finite b))
size_unbounded n (number_of a) (number_of b) h = inr (a, b, refl, refl)
size_unbounded {l} {u} n minus_inf (number_of b) h =
    inl (unfold size Extended.sub Extended.add Extended.neg in rw (not-is_bottom _ n h) refl)
size_unbounded {l} {u} n minus_inf plus_inf h =
    inl (unfold size Extended.sub Extended.add Extended.neg in rw (not-is_bottom _ n h) refl)
size_unbounded {l} {u} n (number_of a) plus_inf h =
    inl (unfold size Extended.sub Extended.add Extended.neg in rw (not-is_bottom _ n h) refl)
size_unbounded n _ minus_inf h = absurd (no_upper n (contains-ub _ n h))
size_unbounded n plus_inf _ h = absurd (no_lower n (contains-lb _ n h))

extend_wide :
    (e : Bound → Result ℤ) (full i : Interval) (s : ℤ)
    → size i ≡ ok plus_infinity
    → size full ≡ ok (finite s)
    → extend e full i ≡ ok full
unfolding extend Extended.lt Extended.ge
extend_wide e full i s h k = rw (h, k)

-- The result of `extend` where both sizes are finite.
abbrev chosen : Interval → ℤ → ℤ → Bool → Interval
chosen full a b fits =
    if fits
    then (if is_bottom (interval (finite a) (finite b))
        then full
        else interval (finite a) (finite b))
    else full

extend_narrow :
    (e : Bound → Result ℤ) (full i : Interval) (s t a b : ℤ)
    → size i ≡ ok (finite s)
    → size full ≡ ok (finite t)
    → e i.lb ≡ ok a
    → e i.ub ≡ ok b
    → extend e full i ≡ ok (chosen full a b (not (leb_ℤ t s)))
unfolding extend Extended.lt Extended.ge
extend_narrow e full i s t a b h k p q = rw (h, k, p, q) (ground arith)

finite-le : (a b : ℤ) → Extended.le (finite a) (finite b) ≡ true → leb_ℤ a b ≡ true
unfolding Extended.le
finite-le a b h = h

ordered_ends : (a b : ℤ) → is_bottom (interval (finite a) (finite b)) ≡ false → a ≤ℤ b
unfolding is_bottom Extended.gt Extended.le
ordered_ends a b h = elim (interval-cases (finite a) (finite b)) [
  | inl c ↦ cc (h, c.1)
  | inr c ↦ (leb_ℤ_iff a b).0 (c.0)
]

finite-contains :
    (a b n : ℤ) → contains (interval (finite a) (finite b)) n ≡ true → (a ≤ℤ n) × (n ≤ℤ b)
unfolding Extended.le
finite-contains a b n h = ground (arith, contains-interval (finite a) (finite b) n)

contains-finite : (a b n : ℤ) → a ≤ℤ n → n ≤ℤ b → contains (interval (finite a) (finite b)) n ≡ true
unfolding Extended.le
contains-finite a b n h k = ground (arith, contains-interval (finite a) (finite b) n)

apart : (p q : ℤ) → not (leb_ℤ (q +ℤ pos 1) (p +ℤ pos 1)) ≡ true → p <ℤ q
apart p q h = ground (arith, +ℤ_parts p (pos 1), +ℤ_parts q (pos 1))

-- An extension of numbers to a range: on numbers less than the range apart it is monotone, unless
-- it puts the greater before the smaller.
pub record IsExtension (E : ℤ → ℤ) (lo hi : ℤ) : Type 0 where
  pub lo_le : (n : ℤ) → lo ≤ℤ E n
  pub le_hi : (n : ℤ) → E n ≤ℤ hi
  pub mono :
      (l n u : ℤ)
      → l ≤ℤ n
      → n ≤ℤ u
      → u +ℤ neg_ℤ l <ℤ hi +ℤ neg_ℤ lo
      → E l ≤ℤ E u
      → (E l ≤ℤ E n) × (E n ≤ℤ E u)

module _ (e : Bound → Result ℤ) (E : ℤ → ℤ) (lo hi : ℤ) (x : IsExtension E lo hi)
    (end_lem : (n : ℤ) → e (finite n) ≡ ok (E n)) where
  abbrev pub full : Interval
  full = interval (finite lo) (finite hi)

  full-contains : (n : ℤ) → contains full (E n) ≡ true
  full-contains n = contains-finite lo hi (E n) (x.lo_le n) (x.le_hi n)

  full_size : (n : ℤ) → size full ≡ ok (finite (hi +ℤ neg_ℤ lo +ℤ pos 1))
  full_size n = elim (interval-cases (finite lo) (finite hi)) [
    | inl c ↦ cc (full-contains n, c.1, contains-bottom (E n))
    | inr c ↦
        rw (c.1)
          (size_finite _ lo hi refl refl (not-is_bottom _ (E n) (rw (c.1) at (full-contains n))))
  ]

  chosen-contains :
      (l n u : ℤ) (b : Bool)
      → l ≤ℤ n
      → n ≤ℤ u
      → (b ≡ true → u +ℤ neg_ℤ l <ℤ hi +ℤ neg_ℤ lo)
      → contains (chosen full (E l) (E u) b) (E n) ≡ true
  chosen-contains l n u false h k near = full-contains n
  chosen-contains l n u true h k near =
      elim (Bool-cases (is_bottom (interval (finite (E l)) (finite (E u))))) [
        | inl empty ↦ rw empty (full-contains n)
        | inr some_member ↦
            let m = x.mono l n u h k (near refl) (ordered_ends (E l) (E u) some_member) in
            rw some_member (contains-finite (E l) (E u) (E n) (m.0) (m.1))
      ]

  pub extend-contains :
      (i : Interval) (n : ℤ)
      → IsValid i
      → contains i n ≡ true
      → Returns (λ r. contains r (E n) ≡ true) (extend e full i)
  extend-contains i n v h = elim (size_unbounded n v.lb_normal v.ub_normal h) [
    | inl wide ↦ rw (extend_wide e full i _ wide (full_size n)) (returns (full-contains n))
    | inr (a, b, p, q) ↦
        let lower : a ≤ℤ n = (leb_ℤ_iff a n).0 (finite-le a n (cc (contains-lb i n h, p))) in
        let upper : n ≤ℤ b = (leb_ℤ_iff n b).0 (finite-le n b (cc (contains-ub i n h, q))) in
        rw
          (extend_narrow e full i _ _ (E a) (E b) (size_finite i a b p q (not-is_bottom i n h))
            (full_size n) (ap e p ∙ end_lem a) (ap e q ∙ end_lem b))
          (returns (chosen-contains a n b _ lower upper λ near. apart _ _ near))
  ]
