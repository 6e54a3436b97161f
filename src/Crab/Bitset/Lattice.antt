-- ===== src/Crab/Bitset/Lattice.antt =====
-- The order of `BitsetDomain` of src/crab/bitset_domain.hpp as the inclusion of sets of bytes.
use prevail.Prelude.{
  ℕ, zero, suc, ◌<◌, Bool, true, ◌&&◌, ◌||◌, ◌≡◌, ◌↔◌, refl, ap, ◌∙◌, ◌⊎◌, inl, inr, arith,
}
use native.Mathlib.Decide.{ℕ_discrete}
use prevail.Crab.Bitset.{
  BitsetDomain, total_stack_size, all_below, same_bit, le, equal, join, meet, widen, narrow,
}

both-true : (x y : Bool) → (x && y) ≡ true → (x ≡ true) × (y ≡ true)
both-true x y h = ground arith

true-both : (x y : Bool) → x ≡ true → y ≡ true → (x && y) ≡ true
true-both x y h k = ground arith

last_or_earlier :
    (test : ℕ → Bool) (n k : ℕ)
    → test n ≡ true
    → ((i : ℕ) → i < n → test i ≡ true)
    → k < suc n
    → test k ≡ true
last_or_earlier test n k h earlier lt = elim (ℕ_discrete k n) [
  | yes e ↦ ap test e ∙ h
  | no d ↦ earlier k (omega arith)
]

-- The test of all positions accepts exactly what holds at each.
pub all_below_iff :
    (n : ℕ) (test : ℕ → Bool) → (all_below n test ≡ true) ↔ ((k : ℕ) → k < n → test k ≡ true)
unfolding all_below
all_below_iff zero test = (λ _ k h. absurd (omega (arith, h)), λ _. refl)
all_below_iff (suc n) test = (
  λ h k lt.
      last_or_earlier test n k ((both-true _ _ h).0)
        ((all_below_iff n test).0 ((both-true _ _ h).1)) lt,
  λ h.
      true-both (test n) _ (h n (omega arith))
        ((all_below_iff n test).1 (λ k lt. h k (omega (arith, lt)))),
)

-- A byte of the stack that may not be a number.
abbrev pub Marked : BitsetDomain → ℕ → Type 0
Marked b k = b.non_numerical_bytes k ≡ true

abbrev pub Included : BitsetDomain → BitsetDomain → Type 0
Included a b = (k : ℕ) → k < total_stack_size → Marked a k → Marked b k

same_bit_iff : (x y : Bool) → (same_bit (x || y) y ≡ true) ↔ (x ≡ true → y ≡ true)
same_bit_iff x y = ground arith

-- Inclusion as it is computed is inclusion of the sets of marked bytes.
pub le_iff : (a b : BitsetDomain) → (le a b ≡ true) ↔ Included a b
unfolding le
le_iff a b =
    let all = all_below_iff total_stack_size _ in
    (
      λ h k lt. (same_bit_iff _ _).0 (all.0 h k lt),
      λ h. all.1 (λ k lt. (same_bit_iff _ _).1 (h k lt)),
    )

join-Marked : (a b : BitsetDomain) (k : ℕ) → Marked (join a b) k ↔ (Marked a k ⊎ Marked b k)
unfolding join
join-Marked a b k = ground arith

meet-Marked : (a b : BitsetDomain) (k : ℕ) → Marked (meet a b) k ↔ (Marked a k × Marked b k)
unfolding meet
meet-Marked a b k = ground arith

-- The join is the least set that includes both.
pub join-le : (a b c : BitsetDomain) → (le (join a b) c ≡ true) ↔ (Included a c × Included b c)
join-le a b c = (
  λ h. (
    λ k lt m. (le_iff (join a b) c).0 h k lt ((join-Marked a b k).1 (inl m)),
    λ k lt m. (le_iff (join a b) c).0 h k lt ((join-Marked a b k).1 (inr m)),
  ),
  λ h.
      (le_iff (join a b) c).1
        (λ k lt m. elim ((join-Marked a b k).0 m) [ inl x ↦ h.0 k lt x | inr y ↦ h.1 k lt y ]),
)

-- The meet is the greatest set that is included in both.
pub le-meet : (a b c : BitsetDomain) → (le c (meet a b) ≡ true) ↔ (Included c a × Included c b)
le-meet a b c = (
  λ h. (
    λ k lt m. ((meet-Marked a b k).0 ((le_iff c (meet a b)).0 h k lt m)).0,
    λ k lt m. ((meet-Marked a b k).0 ((le_iff c (meet a b)).0 h k lt m)).1,
  ),
  λ h. (le_iff c (meet a b)).1 (λ k lt m. (meet-Marked a b k).1 (h.0 k lt m, h.1 k lt m)),
)

-- The two values that agree on every byte of the stack.
same_bits : (x y : Bool) → (same_bit x y ≡ true) ↔ (x ≡ y)
same_bits x y = ground arith

pub equal_iff :
    (a b : BitsetDomain)
    → (equal a b ≡ true)
      ↔ ((k : ℕ) → k < total_stack_size → a.non_numerical_bytes k ≡ b.non_numerical_bytes k)
unfolding equal
equal_iff a b =
    let all = all_below_iff total_stack_size _ in
    (λ h k lt. (same_bits _ _).0 (all.0 h k lt), λ h. all.1 (λ k lt. (same_bits _ _).1 (h k lt)))

-- The domain implements the sets of bytes of the stack: its order is inclusion, its equality is
-- equality of the marks, the join and the widening are the union, and the meet and the narrowing the
-- intersection.
pub record RefinesSets (a b c : BitsetDomain) : Type 0 where
  pub order : (le a b ≡ true) ↔ Included a b
  pub same :
      (equal a b ≡ true)
      ↔ ((k : ℕ) → k < total_stack_size → a.non_numerical_bytes k ≡ b.non_numerical_bytes k)
  pub least : (le (join a b) c ≡ true) ↔ (Included a c × Included b c)
  pub greatest : (le c (meet a b) ≡ true) ↔ (Included c a × Included c b)
  pub widened : (le (widen a b) c ≡ true) ↔ (Included a c × Included b c)
  pub narrowed : (le c (narrow a b) ≡ true) ↔ (Included c a × Included c b)

-- The domain refines sets of bytes of the stack, those that may not be numbers: inclusion and
-- equality are those of the sets, the join and the widening are the least set that includes both,
-- and the meet and the narrowing the greatest that both include.
pub bitset-RefinesSets : (a b c : BitsetDomain) → RefinesSets a b c
unfolding widen narrow join meet
bitset-RefinesSets a b c = record {
  order = le_iff a b;
  same = equal_iff a b;
  least = join-le a b c;
  greatest = le-meet a b c;
  widened = join-le a b c;
  narrowed = le-meet a b c;
}
