-- ===== src/Ir/Assertions/Accesses.antt =====
-- The assertions of loads and stores, of src/ir/assertions.cpp.
use prevail.Prelude.{ℕ, ◌<◌, ◌^◌, ◌≡◌, ◌↔◌, [], arith}
use native.Mathlib.Nat.{mod-eq_of_lt}
use prevail.Prelude.Int.{ℤ, mod_ℕ, pos, negsuc, ◌+ℤ◌, ◌≤ℤ◌}
use prevail.Prelude.Result.{ok}
use prevail.Arith.Number
use prevail.Ir.Syntax.{Instruction, Mem}
use prevail.Ir.Assertions.{Extractor, get_assertions, of_mem, leaves_stack_frame, r10_stack_pointer}

-- The width that the source narrows: it is not negative.
narrow_width : (w : ℕ) → w < 2 ^ 32 → Number.narrow (Number.uint 32) (pos w) ≡ ok (pos w)
unfolding Number.narrow Number.fits
narrow_width w h = ground arith

-- The cast to int keeps it.
cast_width : (w : ℕ) → w < 2 ^ 31 → Number.static_cast (Number.sint 32) (pos w) ≡ pos w
unfolding Number.static_cast mod_ℕ
cast_width w h = ground (arith, mod-eq_of_lt {n = w} {m = 2 ^ 32} (omega arith))

-- The sum of an offset and a width is an int.
cast_sum :
    (n : ℤ)
    → negsuc (2147483647) ≤ℤ n
    → n ≤ℤ pos (2147483647)
    → Number.static_cast (Number.sint 32) n ≡ n
unfolding Number.static_cast mod_ℕ
cast_sum n low high = ground arith

sum_low : (n : ℤ) (w : ℕ) → negsuc (2147483647) ≤ℤ n → negsuc (2147483647) ≤ℤ (n +ℤ pos w)
unfolding ◌+ℤ◌
sum_low n w h = ground arith

-- A load or store through the stack pointer, of a width below 2 ^ 31 and an offset of 32 bits
-- whose sum with the width is one too, gets no assertion exactly if it lies within the 512 bytes
-- below the stack pointer.
pub stack_access_guard :
    (x : Extractor) (m : Mem) (w : ℕ)
    → m.access.basereg ≡ r10_stack_pointer
    → m.access.width ≡ pos w
    → w < 2 ^ 31
    → negsuc (2147483647) ≤ℤ m.access.offset
    → m.access.offset +ℤ pos w ≤ℤ pos (2147483647)
    → (get_assertions x (Instruction.mem m) ≡ ok [])
      ↔ ((negsuc 511 ≤ℤ m.access.offset) × (m.access.offset +ℤ pos w ≤ℤ pos 0))
unfolding get_assertions of_mem leaves_stack_frame
stack_access_guard x m w base width h low high = ground (
  arith,
  narrow_width w (omega arith),
  cast_width w h,
  cast_sum (m.access.offset +ℤ pos w) (sum_low m.access.offset w low) high,
)
