-- ===== src/Crab/Bitset/Bytes.antt =====
-- What `reset` and `havoc` of src/crab/bitset_domain.hpp do to each byte of the stack.
use prevail.Prelude.{
  ℕ, zero, suc, ◌+◌, ◌<◌, Bool, true, false, ◌&&◌, ◌==◌, leb, ltb, ◌≡◌, refl, sym, ◌∙◌, ap,
  if◌then◌else◌, arith,
}
use prevail.Prelude.Int.{ℤ, pos_part}
use prevail.Crab.Bitset.{
  BitsetDomain, Bits, total_stack_size, with_bit, with_range, reset, havoc, rounds,
}

-- A byte is in a range of a width, which has no byte if it is negative.
abbrev pub in_range : ℕ → ℤ → ℕ → Bool
in_range lb width k = leb lb k && ltb k (lb + pos_part width)

one_more :
    (i n k : ℕ) (value old : Bool)
    → (if leb (suc i) k && ltb k (suc i + n) then value else (if k == i then value else old))
      ≡ (if leb i k && ltb k (i + suc n) then value else old)
one_more i n k value old = ground arith

with_range-bit :
    (bits : Bits) (i n : ℕ) (value : Bool) (k : ℕ)
    → with_range bits i n value k ≡ (if leb i k && ltb k (i + n) then value else bits k)
unfolding with_range
with_range-bit bits i zero value k = ground arith
with_range-bit bits i (suc n) value k =
    with_range-bit (with_bit bits i value) (suc i) n value k ∙ one_more i n k value (bits k)

cut :
    (lb : ℕ) (width : ℤ) (k : ℕ)
    → k < total_stack_size
    → leb total_stack_size lb ≡ false
    → (leb lb k && ltb k (lb + rounds lb width)) ≡ in_range lb width k
cut lb width k h l = ground arith

past :
    (lb : ℕ) (width : ℤ) (k : ℕ)
    → k < total_stack_size
    → leb total_stack_size lb ≡ true
    → in_range lb width k ≡ false
past lb width k h l = ground arith

module _ (b : BitsetDomain) (lb : ℕ) (width : ℤ) (k : ℕ) (h : k < total_stack_size) where
  ranged :
      (value outside : Bool)
      → leb total_stack_size lb ≡ outside
      → (if outside then b else record {
        non_numerical_bytes = with_range b.non_numerical_bytes lb (rounds lb width) value;
      }).non_numerical_bytes
          k
        ≡ (if in_range lb width k then value else b.non_numerical_bytes k)
  ranged value true l =
      ap (λ t. if t then value else b.non_numerical_bytes k) (sym (past lb width k h l))
  ranged value false l =
      with_range-bit b.non_numerical_bytes lb (rounds lb width) value k
      ∙ ap (λ t. if t then value else b.non_numerical_bytes k) (cut lb width k h l)

-- Resetting a range makes each byte of the stack in it numerical and leaves the others, and havoc
-- marks each byte in it and leaves the others, whether the range ends within the stack or not.
pub reset-havoc-byte :
    (b : BitsetDomain) (lb : ℕ) (width : ℤ) (k : ℕ)
    → k < total_stack_size
    → ((reset b lb width).non_numerical_bytes k
        ≡ (if in_range lb width k then false else b.non_numerical_bytes k))
      × ((havoc b lb width).non_numerical_bytes k
          ≡ (if in_range lb width k then true else b.non_numerical_bytes k))
unfolding reset havoc
reset-havoc-byte b lb width k h =
    (ranged b lb width k h false _ refl, ranged b lb width k h true _ refl)
