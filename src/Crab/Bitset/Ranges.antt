-- ===== src/Crab/Bitset/Ranges.antt =====
-- What `all_num_width` and `all_num` of src/crab/bitset_domain.hpp say of the bytes of a range.
use prevail.Prelude.{
  ℕ, zero, suc, ◌+◌, ◌-◌, ◌<◌, ◌≤◌, Bool, true, false, not, leb, ◌≡◌, ◌↔◌, refl, ◌∙◌, ap,
  if◌then◌else◌, arith,
}
use prevail.Prelude.Int.{ℤ, pos, pos_part, leb_ℤ, eqb_ℤ, ◌≤ℤ◌, ◌<ℤ◌}
use prevail.Prelude.Result.{ok, err, failed_assert, Returns, returns, Returns-value}
use prevail.Crab.Bitset.{
  BitsetDomain, Bits, total_stack_size, numerical_end, all_num_width, all_num_from, all_num, reset,
  min_ℤ,
}
use prevail.Crab.Bitset.Bytes.{in_range, reset-havoc-byte}
use native.Mathlib.Decide.{ℕ_discrete}
use prevail.Crab.Bitset.Runs.{Run, Run-suc}

-- Where the loop of all_num_width stops.
record Stops (bits : Bits) (k n e : ℕ) : Type 0 where
  pub low : k ≤ e
  pub high : e ≤ k + n
  pub numerical : (i : ℕ) → k ≤ i → i < e → bits i ≡ false
  pub maximal : e < k + n → bits e ≡ true

numerical_end-Stops : (bits : Bits) (k n : ℕ) → Stops bits k n (numerical_end bits k n)
unfolding numerical_end
numerical_end-Stops bits k zero = record {
  low = omega arith;
  high = omega arith;
  numerical = λ i l u. absurd (omega (arith, l, u));
  maximal = λ h. absurd (omega (arith, h));
}
numerical_end-Stops bits k (suc n) = stop (bits k) refl (numerical_end-Stops bits (suc k) n)
  where
    stop :
        (marked : Bool)
        → bits k ≡ marked
        → Stops bits (suc k) n (numerical_end bits (suc k) n)
        → Stops bits k (suc n) (if not marked then numerical_end bits (suc k) n else k)
    stop true h r = record {
      low = omega arith;
      high = omega arith;
      numerical = λ i l u. absurd (omega (arith, l, u));
      maximal = λ _. h;
    }
    stop false h r = record {
      low = omega (arith, r.low);
      high = omega (arith, r.high);
      numerical = λ i l u. elim (ℕ_discrete i k) [
        | yes e ↦ ap bits e ∙ h
        | no d ↦ r.numerical i (omega arith) u
      ];
      maximal = λ u. r.maximal (omega (arith, u));
    }

-- From a byte of the stack, all_num_width counts bytes that are numerical, as many as there are
-- up to the first marked byte or the stack's end.
all_num_width-maximal :
    (b : BitsetDomain) (lb : ℕ)
    → lb < total_stack_size
    → ((i : ℕ) → lb ≤ i → i < lb + all_num_width b lb → b.non_numerical_bytes i ≡ false)
      × (lb + all_num_width b lb ≤ total_stack_size)
      × (lb + all_num_width b lb < total_stack_size
          → b.non_numerical_bytes (lb + all_num_width b lb) ≡ true)
unfolding all_num_width
all_num_width-maximal b lb h =
    let r = numerical_end-Stops b.non_numerical_bytes lb (total_stack_size - lb) in
    let inside : leb total_stack_size lb ≡ false = ground arith in
    let back : lb + (numerical_end b.non_numerical_bytes lb (total_stack_size - lb) - lb)
        ≡ numerical_end b.non_numerical_bytes lb (total_stack_size - lb) =
      omega (arith, r.low) in
    rw (inside, back) (r.numerical, omega (arith, r.high, h), λ u. r.maximal (omega (arith, u, h)))

all_num_from-Run : (bits : Bits) (k n : ℕ) → (all_num_from bits k n ≡ true) ↔ Run bits false k n
unfolding all_num_from
all_num_from-Run bits k zero = (λ h i l u. absurd (omega (arith, l, u)), λ _. refl)
all_num_from-Run bits k (suc n) =
    first_then (bits k) (all_num_from-Run bits (suc k) n) (Run-suc bits false k n)
  where
    first_then :
        {R S : Type 0} (marked : Bool)
        → (all_num_from bits (suc k) n ≡ true) ↔ R
        → S ↔ ((marked ≡ false) × R)
        → ((if marked then false else all_num_from bits (suc k) n) ≡ true) ↔ S
    first_then true r s = (λ h. absurd (ground arith), λ x. absurd (no (s.0 x).0))
      where
        no : true ≡ false → ⊥
        no h = ground arith
    first_then false r s = (λ h. s.1 (refl, r.0 h), λ x. r.1 ((s.0 x).1))

-- The bytes of the stack between two bounds are numerical.
abbrev pub Numerical : BitsetDomain → ℤ → ℤ → Type 0
Numerical b lb ub =
    (i : ℕ) → i < total_stack_size → lb ≤ℤ pos i → pos i <ℤ ub → b.non_numerical_bytes i ≡ false

module _ (b : BitsetDomain) (lb ub : ℤ) (h : lb ≤ℤ ub) (high : pos 0 ≤ℤ ub)
    (low : lb ≤ℤ pos total_stack_size) where
  counted : ℕ
  counted = pos_part (min_ℤ ub (pos total_stack_size)) - pos_part lb

  Run-Numerical : Run b.non_numerical_bytes false (pos_part lb) counted ↔ Numerical b lb ub
  unfolding counted
  Run-Numerical = (
    λ r i l a c. r i (ground arith) (ground arith),
    λ n i l u. n i (ground arith) (ground arith) (ground arith),
  )

  in_order : leb_ℤ (pos (pos_part lb)) (min_ℤ ub (pos total_stack_size)) ≡ true
  in_order = ground arith

  answer :
      (same : Bool)
      → eqb_ℤ lb ub ≡ same
      → Returns
          (λ t. (t ≡ true) ↔ Numerical b lb ub)
          (if same
            then ok true
            else (if leb_ℤ (pos (pos_part lb)) (min_ℤ ub (pos total_stack_size))
                then ok (all_num_from b.non_numerical_bytes (pos_part lb) counted)
                else err failed_assert))
  answer true e = returns (λ _ i l a c. absurd (ground arith), λ _. refl)
  answer false e =
      let run = all_num_from-Run b.non_numerical_bytes (pos_part lb) counted in
      rw in_order (returns (λ t. Run-Numerical.0 (run.0 t), λ n. run.1 (Run-Numerical.1 n)))

-- For bounds in order, of which the upper is not negative and the lower is not past the stack,
-- all_num returns whether the bytes of the stack between them are numerical.
pub all_num-Numerical :
    (b : BitsetDomain) (lb ub : ℤ)
    → lb ≤ℤ ub
    → pos 0 ≤ℤ ub
    → lb ≤ℤ pos total_stack_size
    → Returns (λ t. (t ≡ true) ↔ Numerical b lb ub) (all_num b lb ub)
unfolding all_num counted
all_num-Numerical b lb ub h high low = answer b lb ub h high low _ refl

inside : (lb n i : ℕ) → pos lb ≤ℤ pos i → pos i <ℤ pos (lb + n) → in_range lb (pos n) i ≡ true
inside lb n i a c = ground arith

-- After a range of bytes that starts in the stack or at its end is reset, all_num finds them
-- numerical.
pub all_num-reset :
    (b : BitsetDomain) (lb n : ℕ)
    → lb ≤ total_stack_size
    → all_num (reset b lb (pos n)) (pos lb) (pos (lb + n)) ≡ ok true
all_num-reset b lb n h =
    let (t, e, iff) = Returns-value (
      all_num-Numerical (reset b lb (pos n)) (pos lb) (pos (lb + n)) (omega arith) (omega arith)
        (omega (arith, h))) in
    e
    ∙ ap ok (
        iff.1 (λ i l a c.
          (reset-havoc-byte b lb (pos n) i l).0
          ∙ ap (λ r. if r then false else b.non_numerical_bytes i) (inside lb n i a c)))
