-- ===== src/Crab/Bitset/Uniformity.antt =====
-- What `uniformity` of src/crab/bitset_domain.hpp says of the bytes of a range.
use prevail.Prelude.{
  ℕ, zero, suc, ◌<◌, Bool, true, false, not, ◌&&◌, leb, ◌≡◌, ◌↔◌, refl, if◌then◌else◌, arith,
}
use prevail.Prelude.Int.{ℤ}
use prevail.Crab.Bitset.{BitsetDomain, Bits, total_stack_size, uniformity_from, uniformity, rounds}
use prevail.Crab.Bitset.Bytes.{in_range}
use prevail.Crab.Bitset.Runs.{Run, Run-suc}

and-not : (x y : Bool) → ((x && not y) ≡ true) ↔ ((x ≡ true) × (y ≡ false))
and-not x y = ground arith

and-both : (x y : Bool) → ((x && y) ≡ true) ↔ ((x ≡ true) × (y ≡ true))
and-both x y = ground arith

-- One round of a loop that tests a byte, put before the rest of the run.
regroup : {P A A' B R R' : Type 0} → P ↔ (A' × R') → A' ↔ (A × B) → R ↔ (B × R') → P ↔ (A × R)
regroup p a r = (
  λ x. ((a.0 ((p.0 x).0)).0, r.1 ((a.0 ((p.0 x).0)).1, (p.0 x).1)),
  λ y. p.1 (a.1 (y.0, (r.0 (y.1)).0), (r.0 (y.1)).1),
)

uniformity_from-Run :
    (bits : Bits) (k n : ℕ) (only : Bool × Bool)
    → (((uniformity_from bits k n only).0 ≡ true) ↔ ((only.0 ≡ true) × Run bits false k n))
      × (((uniformity_from bits k n only).1 ≡ true) ↔ ((only.1 ≡ true) × Run bits true k n))
unfolding uniformity_from
uniformity_from-Run bits k zero only = (
  (λ h. (h, λ i l u. absurd (omega (arith, l, u))), λ h. h.0),
  (λ h. (h, λ i l u. absurd (omega (arith, l, u))), λ h. h.0),
)
uniformity_from-Run bits k (suc n) only =
    let further = uniformity_from-Run bits (suc k) n (only.0 && not (bits k), only.1 && bits k) in
    (
      regroup (further.0) (and-not (only.0) (bits k)) (Run-suc bits false k n),
      regroup (further.1) (and-both (only.1) (bits k)) (Run-suc bits true k n),
    )

-- The bytes of the stack in a range have this mark.
abbrev pub Uniform : BitsetDomain → ℕ → ℤ → Bool → Type 0
Uniform b lb width value =
    (i : ℕ) → i < total_stack_size → in_range lb width i ≡ true → b.non_numerical_bytes i ≡ value

covers_range :
    (b : BitsetDomain) (lb : ℕ) (width : ℤ) (value : Bool)
    → leb total_stack_size lb ≡ false
    → Run b.non_numerical_bytes value lb (rounds lb width) ↔ Uniform b lb width value
covers_range b lb width value h =
    (λ r i l t. r i (ground arith) (ground arith), λ u i l m. u i (ground arith) (ground arith))

regroup_true : {P R S : Type 0} → P ↔ ((true ≡ true) × R) → R ↔ S → P ↔ S
regroup_true p r = (λ x. r.0 ((p.0 x).1), λ s. p.1 (refl, r.1 s))

module _ (b : BitsetDomain) (lb : ℕ) (width : ℤ) where
  in_stack :
      (outside : Bool)
      → leb total_stack_size lb ≡ outside
      → (((if outside
              then (true, true)
              else uniformity_from b.non_numerical_bytes lb (rounds lb width) (true, true)).0
            ≡ true)
          ↔ Uniform b lb width false)
        × (((if outside
                then (true, true)
                else uniformity_from b.non_numerical_bytes lb (rounds lb width) (true, true)).1
              ≡ true)
            ↔ Uniform b lb width true)
  in_stack true h =
      ((λ _ i l t. absurd (ground arith), λ _. refl), (λ _ i l t. absurd (ground arith), λ _. refl))
  in_stack false h =
      let whole = uniformity_from-Run b.non_numerical_bytes lb (rounds lb width) (true, true) in
      (
        regroup_true (whole.0) (covers_range b lb width false h),
        regroup_true (whole.1) (covers_range b lb width true h),
      )

-- The two answers of uniformity are whether every byte of the stack in the range is numerical,
-- and whether none is, also where the range leaves the stack or is empty.
pub uniformity_iff :
    (b : BitsetDomain) (lb : ℕ) (width : ℤ)
    → (((uniformity b lb width).0 ≡ true) ↔ Uniform b lb width false)
      × (((uniformity b lb width).1 ≡ true) ↔ Uniform b lb width true)
unfolding uniformity
uniformity_iff b lb width = in_stack b lb width _ refl
