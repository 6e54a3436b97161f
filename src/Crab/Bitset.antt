-- ===== src/Crab/Bitset.antt =====
-- `BitsetDomain` of src/crab/bitset_domain.hpp: which bytes of the stack may not be numbers. The
-- `std::bitset` is the function that reads its bits, which has no meaning from the stack's size on.
pub mod Lattice
pub mod Bytes
pub mod Runs
pub mod Uniformity
pub mod Ranges
use prevail.Prelude.{
  ℕ, zero, suc, ◌+◌, ◌-◌, Bool, true, false, not, ◌&&◌, ◌||◌, ◌==◌, ltb, leb, if◌then◌else◌,
}
use prevail.Prelude.Int.{ℤ, pos, negsuc, pos_part, leb_ℤ, eqb_ℤ}
use prevail.Prelude.Result.{Result, ok, err, failed_assert}

-- EBPF_TOTAL_STACK_SIZE of src/spec/ebpf_base.h.
abbrev pub total_stack_size : ℕ
total_stack_size = 4096

abbrev pub Bits : Type 0
Bits = ℕ → Bool

pub record BitsetDomain : Type 0 where
  pub non_numerical_bytes : Bits

abbrev pub bitset : Bits → BitsetDomain
bitset bits = record { non_numerical_bytes = bits }

-- A test of all positions below a number.
unfoldable pub all_below : ℕ → (ℕ → Bool) → Bool
all_below zero test = true
all_below (suc n) test = let earlier = all_below n test in test n && earlier

unfoldable pub top : BitsetDomain
top = bitset (λ k. true)

-- `set_to_bottom`: no byte is marked, though `is_bottom` is always false.
unfoldable pub bottom : BitsetDomain
bottom = bitset (λ k. false)

unfoldable pub is_top : BitsetDomain → Bool
is_top b = all_below total_stack_size b.non_numerical_bytes

unfoldable pub is_bottom : BitsetDomain → Bool
is_bottom b = false

abbrev pub same_bit : Bool → Bool → Bool
same_bit true y = y
same_bit false y = not y

abbrev pub equal_bits : Bits → Bits → Bool
equal_bits x y = all_below total_stack_size (λ k. same_bit (x k) (y k))

abbrev pub union : Bits → Bits → Bits
union x y k = x k || y k

abbrev pub intersection : Bits → Bits → Bits
intersection x y k = x k && y k

unfoldable pub le : BitsetDomain → BitsetDomain → Bool
le a b = equal_bits (union a.non_numerical_bytes b.non_numerical_bytes) b.non_numerical_bytes

unfoldable pub equal : BitsetDomain → BitsetDomain → Bool
equal a b = equal_bits a.non_numerical_bytes b.non_numerical_bytes

unfoldable pub join : BitsetDomain → BitsetDomain → BitsetDomain
join a b = bitset (union a.non_numerical_bytes b.non_numerical_bytes)

unfoldable pub meet : BitsetDomain → BitsetDomain → BitsetDomain
meet a b = bitset (intersection a.non_numerical_bytes b.non_numerical_bytes)

unfoldable pub widen : BitsetDomain → BitsetDomain → BitsetDomain
widen a b = bitset (union a.non_numerical_bytes b.non_numerical_bytes)

unfoldable pub narrow : BitsetDomain → BitsetDomain → BitsetDomain
narrow a b = bitset (intersection a.non_numerical_bytes b.non_numerical_bytes)

abbrev pub min_ℕ : ℕ → ℕ → ℕ
min_ℕ a b = if leb a b then a else b

-- `std::min(width, EBPF_TOTAL_STACK_SIZE - lb)`, as the number of rounds of the loop up to it: none
-- for a negative width.
abbrev pub rounds : ℕ → ℤ → ℕ
rounds lb width = min_ℕ (pos_part width) (total_stack_size - lb)

-- The loop of `uniformity`, from a byte on, for a number of bytes.
unfoldable pub uniformity_from : Bits → ℕ → ℕ → Bool × Bool → Bool × Bool
uniformity_from bits k zero only = only
uniformity_from bits k (suc n) only =
    uniformity_from bits (suc k) n (only.0 && not (bits k), only.1 && bits k)

unfoldable pub uniformity : BitsetDomain → ℕ → ℤ → Bool × Bool
uniformity b lb width =
    if leb total_stack_size lb
    then (true, true)
    else uniformity_from b.non_numerical_bytes lb (rounds lb width) (true, true)

-- The loop of `all_num_width`, with the bytes that are left.
unfoldable pub numerical_end : Bits → ℕ → ℕ → ℕ
numerical_end bits ub zero = ub
numerical_end bits ub (suc n) =
    let further = numerical_end bits (suc ub) n in if not (bits ub) then further else ub

unfoldable pub all_num_width : BitsetDomain → ℕ → ℕ
all_num_width b lb =
    if leb total_stack_size lb
    then 0
    else numerical_end b.non_numerical_bytes lb (total_stack_size - lb) - lb

abbrev pub with_bit : Bits → ℕ → Bool → Bits
with_bit bits i value k = if k == i then value else bits k

-- The loops of `reset` and `havoc`.
unfoldable pub with_range : Bits → ℕ → ℕ → Bool → Bits
with_range bits k zero value = bits
with_range bits k (suc n) value = with_range (with_bit bits k value) (suc k) n value

unfoldable pub reset : BitsetDomain → ℕ → ℤ → BitsetDomain
reset b lb n =
    if leb total_stack_size lb
    then b
    else bitset (with_range b.non_numerical_bytes lb (rounds lb n) false)

unfoldable pub havoc : BitsetDomain → ℕ → ℤ → BitsetDomain
havoc b lb width =
    if leb total_stack_size lb
    then b
    else bitset (with_range b.non_numerical_bytes lb (rounds lb width) true)

-- The loop of `all_num`, from a byte on, for a number of bytes.
unfoldable pub all_num_from : Bits → ℕ → ℕ → Bool
all_num_from bits k zero = true
all_num_from bits k (suc n) =
    let further = all_num_from bits (suc k) n in if bits k then false else further

abbrev pub min_ℤ : ℤ → ℤ → ℤ
min_ℤ a b = if leb_ℤ a b then a else b

-- The bounds are cut to the stack; the assertion is that they are still in order.
unfoldable pub all_num : BitsetDomain → ℤ → ℤ → Result Bool
all_num b lb ub =
    if eqb_ℤ lb ub
    then ok true
    else (let from = pos_part lb in
        let to = min_ℤ ub (pos total_stack_size) in
        if leb_ℤ (pos from) to
        then ok (all_num_from b.non_numerical_bytes from (pos_part to - from))
        else err failed_assert)
