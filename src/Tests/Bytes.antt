-- ===== src/Tests/Bytes.antt =====
-- The bytes of the stack: the theorems where bytes 8 to 15 are numbers.
use prevail.Prelude.{◌+◌, ◌≡◌, ◌↔◌, true, false, if◌then◌else◌, arith}
use prevail.Prelude.Int.{pos, negsuc}
use prevail.Prelude.Result.{ok, Returns}
use prevail.Crab.Bitset.{BitsetDomain, top, bottom, reset, havoc, uniformity, all_num}
use prevail.Crab.Bitset.Lattice.{RefinesSets, bitset-RefinesSets}
use prevail.Crab.Bitset.Bytes.{in_range, reset-havoc-byte}
use prevail.Crab.Bitset.Uniformity.{Uniform, uniformity_iff}
use prevail.Crab.Bitset.Ranges.{Numerical, all_num-Numerical, all_num-reset}

abbrev eight_numbers : BitsetDomain
eight_numbers = reset top 8 (pos 8)

bitset-RefinesSets_example : RefinesSets bottom eight_numbers top
bitset-RefinesSets_example = bitset-RefinesSets bottom eight_numbers top

reset-havoc-byte_example :
    ((reset top 4092 (pos 8)).non_numerical_bytes 4095
      ≡ (if in_range 4092 (pos 8) 4095 then false else top.non_numerical_bytes 4095))
    × ((havoc top 4092 (pos 8)).non_numerical_bytes 4095
        ≡ (if in_range 4092 (pos 8) 4095 then true else top.non_numerical_bytes 4095))
reset-havoc-byte_example = reset-havoc-byte top 4092 (pos 8) 4095 (omega arith)

uniformity_iff_example :
    (((uniformity eight_numbers 8 (pos 8)).0 ≡ true) ↔ Uniform eight_numbers 8 (pos 8) false)
    × (((uniformity eight_numbers 8 (pos 8)).1 ≡ true) ↔ Uniform eight_numbers 8 (pos 8) true)
uniformity_iff_example = uniformity_iff eight_numbers 8 (pos 8)

all_num-Numerical_example :
    Returns
      (λ t. (t ≡ true) ↔ Numerical eight_numbers (negsuc 3) (pos 16))
      (all_num eight_numbers (negsuc 3) (pos 16))
all_num-Numerical_example =
    all_num-Numerical eight_numbers (negsuc 3) (pos 16) (omega arith) (omega arith) (omega arith)

all_num-reset_example : all_num (reset top 8 (pos 8)) (pos 8) (pos (8 + 8)) ≡ ok true
all_num-reset_example = all_num-reset top 8 8 (omega arith)
