-- ===== src/Arith/Number/Wrap.antt =====
-- `sign_extend` and `zero_extend` of src/arith/num_big.hpp, against the number's w low bits.
use native.Mathlib.Decide.{dec_le, dec_lt}
use prevail.Prelude.{
  le→leb, ℕ, zero, suc, ◌+◌, ◌-◌, ◌%◌, ◌^◌, ◌≤◌, ◌<◌, ◌≡◌, ◌∙◌, arith, leb, if◌then◌else◌,
}
use native.Mathlib.Nat.{one-le-pow, two-pow-succ, mod-eq_of_lt, mod-eq-sub-mod}
use prevail.Prelude.Int.{ℤ, pos, sub_ℕ, ◌+ℤ◌, ◌-ℤ◌, ◌≤ℤ◌, mod_ℕ, mod_ℕ-lt, mod_ℕ-+}
use prevail.Arith.CppInt.{CppInt}
use prevail.Arith.Number.{sign_extend, zero_extend, sign_extend_impl, zero_extend_impl}

pub pow_pos : (w : ℕ) → 0 < 2 ^ w
pow_pos w = one-le-pow w 2 (omega arith)

-- The number of w low bits of `n`, read without and with a sign.
abbrev pub low_bits : ℕ → ℤ → ℕ
low_bits w n = mod_ℕ n (2 ^ w)

abbrev pub signed_bits : ℕ → ℤ → ℤ
signed_bits w n =
    if leb (2 ^ (w - 1)) (low_bits w n) then sub_ℕ (low_bits w n) (2 ^ w) else pos (low_bits w n)

module _ (C : CppInt) where
  -- For a positive width w, the zero extension, computed by masking, is the w low bits of the
  -- number read as an unsigned number: its residue modulo 2 ^ w.
  pub zero_extend-low_bits : (w : ℕ) (n : ℤ) → 0 < w → zero_extend C w n ≡ pos (low_bits w n)
  unfolding zero_extend zero_extend_impl
  zero_extend-low_bits w n h = ground (arith, C.band-mask n w)

  sign_bit :
      (w : ℕ) (n : ℤ)
      → 0 < w
      → C.band (pos (low_bits w n)) (pos (2 ^ (w - 1)))
        ≡ (if leb (2 ^ (w - 1)) (low_bits w n) then pos (2 ^ (w - 1)) else pos 0)
  sign_bit zero n h = absurd (omega arith)
  sign_bit (suc v) n h =
      let e : suc v - 1 ≡ v = omega arith in
      rw e (C.band-bit (low_bits (suc v) n) v (mod_ℕ-lt n (2 ^ suc v) (pow_pos (suc v))))

  -- For a positive width w, the sign extension, computed by masking and testing the sign bit, is
  -- the w low bits of the number read as a signed number.
  pub sign_extend-signed_bits : (w : ℕ) (n : ℤ) → 0 < w → sign_extend C w n ≡ signed_bits w n
  unfolding sign_extend sign_extend_impl
  sign_extend-signed_bits w n h = ground (arith, C.band-mask n w, sign_bit w n h, pow_pos (w - 1))

mod_over : (x m : ℕ) → m ≤ x → x < m + m → x % m ≡ x - m
mod_over x m h k = mod-eq-sub-mod h ∙ mod-eq_of_lt (omega arith)

shift_residue :
    (r m h : ℕ)
    → m ≡ h + h
    → r < m
    → (if leb h r then sub_ℕ r m else pos r) ≡ pos ((r + h) % m) -ℤ pos h
unfolding ◌-ℤ◌
shift_residue r m h e lt = elim (dec_le h r) [
  | yes le ↦ rw (le→leb h r le, mod_over (r + h) m (omega arith) (omega arith)) (ground arith)
  | no gt ↦ let small : (r + h) % m ≡ r + h = mod-eq_of_lt (omega arith) in rw small (ground arith)
]

-- Reading with a sign is reading without one, moved by half the range.
pub signed_bits-shift :
    (w : ℕ) (n : ℤ)
    → 0 < w
    → signed_bits w n ≡ pos (low_bits w (n +ℤ pos (2 ^ (w - 1)))) -ℤ pos (2 ^ (w - 1))
signed_bits-shift zero n h = absurd (omega arith)
signed_bits-shift (suc v) n h =
    let e : suc v - 1 ≡ v = omega arith in
    rw (e, mod_ℕ-+ n (2 ^ v) (2 ^ suc v) (pow_pos (suc v)))
      (shift_residue (low_bits (suc v) n) (2 ^ suc v) (2 ^ v) (two-pow-succ v)
        (mod_ℕ-lt n (2 ^ suc v) (pow_pos (suc v))))

residue_range :
    (r m h : ℕ)
    → 0 < h
    → m ≡ h + h
    → r < m
    → (sub_ℕ 0 h ≤ℤ (if leb h r then sub_ℕ r m else pos r))
      × ((if leb h r then sub_ℕ r m else pos r) ≤ℤ sub_ℕ h 1)
residue_range r m h p e lt = (ground arith, ground arith)

-- The range of the signed reading.
pub signed_bits_range :
    (w : ℕ) (n : ℤ)
    → 0 < w
    → (sub_ℕ 0 (2 ^ (w - 1)) ≤ℤ signed_bits w n) × (signed_bits w n ≤ℤ sub_ℕ (2 ^ (w - 1)) 1)
signed_bits_range zero n h = absurd (omega arith)
signed_bits_range (suc v) n h =
    let e : suc v - 1 ≡ v = omega arith in
    rw e (
      residue_range (low_bits (suc v) n) (2 ^ suc v) (2 ^ v) (pow_pos v) (two-pow-succ v)
        (mod_ℕ-lt n (2 ^ suc v) (pow_pos (suc v))))

-- Between two numbers less than a full turn apart whose residues did not wrap, no number wraps.
pub residue_mono :
    (l : ℤ) (a b m : ℕ)
    → 0 < m
    → a + b < m
    → mod_ℕ l m ≤ mod_ℕ (l +ℤ pos (a + b)) m
    → (mod_ℕ l m ≤ mod_ℕ (l +ℤ pos a) m) × (mod_ℕ (l +ℤ pos a) m ≤ mod_ℕ (l +ℤ pos (a + b)) m)
residue_mono l a b m h near le =
    let r = mod_ℕ l m in
    let small : r < m = mod_ℕ-lt l m h in
    let e = mod_ℕ-+ l a m h in
    let f = mod_ℕ-+ l (a + b) m h in
    elim (dec_lt (r + (a + b)) m) [
      | yes lt ↦
          let x : (r + a) % m ≡ r + a = mod-eq_of_lt (omega arith) in
          let y : (r + (a + b)) % m ≡ r + (a + b) = mod-eq_of_lt lt in
          (omega (arith, e, x), omega (arith, e, f, x, y))
      | no ge ↦
          let y : (r + (a + b)) % m ≡ r + (a + b) - m =
            mod_over (r + (a + b)) m (omega arith) (omega arith) in
          absurd (omega (arith, f, y, le))
    ]
