-- ===== src/Arith/CppInt.antt =====
-- What src/arith/num_big.hpp relies on in `boost::multiprecision::cpp_int`, beyond the integers'
-- own arithmetic (`+ - * / %`, comparisons, powers of two by `<<`): the operations on bits. The
-- documentation of cpp_int gives `&` on any integer the result of two's complement.
use prevail.Prelude.{ℕ, suc, ◌-◌, ◌^◌, ◌<◌, ◌≡◌, leb, if◌then◌else◌}
use prevail.Prelude.Int.{ℤ, pos, mod_ℕ}

pub record CppInt : Type 0 where
  pub band : ℤ → ℤ → ℤ
  pub bor : ℤ → ℤ → ℤ
  pub bxor : ℤ → ℤ → ℤ
  -- The index of the highest bit of a positive number.
  pub msb : ℕ → ℕ
  pub shift_right : ℤ → ℕ → ℤ
  -- A mask of w ones keeps the w low bits.
  pub band-mask : (n : ℤ) (w : ℕ) → band n (pos (2 ^ w - 1)) ≡ pos (mod_ℕ n (2 ^ w))
  -- Below 2 ^ (w + 1), bit w is set from 2 ^ w on.
  pub band-bit :
      (m w : ℕ)
      → m < 2 ^ suc w
      → band (pos m) (pos (2 ^ w)) ≡ (if leb (2 ^ w) m then pos (2 ^ w) else pos 0)
