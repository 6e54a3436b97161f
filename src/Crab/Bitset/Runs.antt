-- ===== src/Crab/Bitset/Runs.antt =====
-- Bytes in a row with the same mark, as the loops of src/crab/bitset_domain.hpp test them.
use prevail.Prelude.{ℕ, suc, ◌+◌, ◌<◌, ◌≤◌, Bool, ◌≡◌, ◌↔◌, ◌∙◌, ap, arith}
use prevail.Crab.Bitset.{Bits}
use native.Mathlib.Decide.{ℕ_discrete}

-- Every byte from one on, for a number of bytes, has this mark.
abbrev pub Run : Bits → Bool → ℕ → ℕ → Type 0
Run bits value k n = (i : ℕ) → k ≤ i → i < k + n → bits i ≡ value

pub Run-suc :
    (bits : Bits) (value : Bool) (k n : ℕ)
    → Run bits value k (suc n) ↔ ((bits k ≡ value) × Run bits value (suc k) n)
Run-suc bits value k n = (
  λ h. (h k (omega arith) (omega arith), λ i l u. h i (omega (arith, l)) (omega (arith, u))),
  λ h i l u. elim (ℕ_discrete i k) [
    | yes e ↦ ap bits e ∙ h.0
    | no d ↦ h.1 i (omega arith) (omega arith)
  ],
)
