-- ===== src/Arith/Number/Narrow.antt =====
-- `gsl::narrow`, as src/arith/num_big.hpp and src/ir use it: the value it returns.
use prevail.Prelude.{Bool, true, false, ◌≡◌, refl, if◌then◌else◌}
use prevail.Prelude.Int.{ℤ}
use prevail.Prelude.Result.{ok, err, no_fit, IfOk, yields, throws}
use prevail.Arith.Number.{IntType, fits, narrow}

pub narrow-fits : (t : IntType) (n : ℤ) → IfOk (λ m. (m ≡ n) × (fits t n ≡ true)) (narrow t n)
unfolding narrow
narrow-fits t n = if-fits (fits t n) refl
  where
    if-fits :
        (b : Bool)
        → fits t n ≡ b
        → IfOk (λ m. (m ≡ n) × (fits t n ≡ true)) (if b then ok n else err no_fit)
    if-fits true h = yields (refl, h)
    if-fits false h = throws
