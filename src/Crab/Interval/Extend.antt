-- ===== src/Crab/Interval/Extend.antt =====
-- `sign_extend` and `zero_extend` of src/crab/interval.cpp, and the extensions of the members.
use prevail.Prelude.{ℕ, ◌+◌, ◌-◌, ◌^◌, ◌≤◌, ◌<◌, ◌≡◌, refl, ap, ◌∙◌, true, false, arith, ◌==◌}
use prevail.Prelude.Int.{
  ℤ, pos, pos_part, neg_part, ◌+ℤ◌, neg_ℤ, ◌≤ℤ◌, ◌<ℤ◌, mod_ℕ, mod_ℕ-lt, int_laws,
}
use prevail.Prelude.Result.{ok, Returns}
use prevail.Arith.CppInt.{CppInt}
use prevail.Arith.Number
use prevail.Arith.Number.{max_int, min_int, max_uint}
use prevail.Arith.Number.Casts.{halves}
use prevail.Arith.Number.Wrap.{
  low_bits, signed_bits, zero_extend-low_bits, sign_extend-signed_bits, signed_bits-shift,
  signed_bits_range, residue_mono, pow_pos,
}
use prevail.Arith.Extended
use prevail.Arith.Extended.{
  Bound, IsNormal, minus_inf, number_of, plus_inf, finite, plus_infinity, minus_infinity,
}
use prevail.Crab.Interval.{Interval, contains}
use prevail.Crab.Interval.Members.{IsValid}
use prevail.Crab.Interval.Bits.{sign_extend, zero_extend, signed_int, unsigned_int}
use prevail.Crab.Interval.Ranges.{IsExtension, extend-contains}

distance : (l n : ℤ) → l ≤ℤ n → (a : ℕ) × (n ≡ l +ℤ pos a)
distance l n h = (pos_part n + neg_part l - (pos_part l + neg_part n), omega int_laws)

+ℤ-pos_assoc : (l : ℤ) (a b : ℕ) → l +ℤ pos a +ℤ pos b ≡ l +ℤ pos (a + b)
+ℤ-pos_assoc l a b = omega int_laws

closeness : (l : ℤ) (a m : ℕ) → l +ℤ pos a +ℤ neg_ℤ l <ℤ pos m → a < m
closeness l a m h = omega int_laws

-- `residue_mono` for numbers in order.
residues :
    (l n u : ℤ) (m : ℕ)
    → 0 < m
    → l ≤ℤ n
    → n ≤ℤ u
    → u +ℤ neg_ℤ l <ℤ pos m
    → mod_ℕ l m ≤ mod_ℕ u m
    → (mod_ℕ l m ≤ mod_ℕ n m) × (mod_ℕ n m ≤ mod_ℕ u m)
residues l n u m h ln nu near le =
    let (a, p) = distance l n ln in
    let (b, q) = distance n u nu in
    let r : u ≡ l +ℤ pos (a + b) = q ∙ ap (λ z. z +ℤ pos b) p ∙ +ℤ-pos_assoc l a b in
    let close : a + b < m = closeness l (a + b) m (rw r at near) in
    rw (r, p) (residue_mono l a b m h close (rw r at le))

pub max_uint_lem : (w : ℕ) → max_uint w ≡ pos (2 ^ w - 1)
max_uint_lem w = let e : w + 1 - 1 ≡ w = omega arith in rw e (ground (arith, pow_pos w))

low_bits-IsExtension :
    (w : ℕ) → 0 < w → IsExtension (λ n. pos (low_bits w n)) (pos 0) (pos (2 ^ w - 1))
low_bits-IsExtension w h = record {
  lo_le = λ n. omega arith;
  le_hi = λ n. omega (arith, mod_ℕ-lt n (2 ^ w) (pow_pos w));
  mono = λ l n u ln nu near le.
      let turn : u +ℤ neg_ℤ l <ℤ pos (2 ^ w) = omega (int_laws, pow_pos w, near) in
      let m = residues l n u (2 ^ w) (pow_pos w) ln nu turn (omega arith) in
      (omega (arith, m.0), omega (arith, m.1));
}

max_int_lem : (w : ℕ) → max_int w ≡ pos (2 ^ (w - 1) - 1)
max_int_lem w = ground (arith, pow_pos (w - 1))

min_int_lem : (w : ℕ) → min_int w ≡ neg_ℤ (pos (2 ^ (w - 1)))
unfolding neg_ℤ
min_int_lem w = refl

shifted_turn :
    (l u : ℤ) (h m : ℕ)
    → 0 < h
    → m ≡ h + h
    → u +ℤ neg_ℤ l <ℤ pos (h - 1) +ℤ neg_ℤ (neg_ℤ (pos h))
    → u +ℤ pos h +ℤ neg_ℤ (l +ℤ pos h) <ℤ pos m
shifted_turn l u h m p e near = omega int_laws

signed_mono :
    (w : ℕ) (l n u : ℤ)
    → 0 < w
    → l ≤ℤ n
    → n ≤ℤ u
    → u +ℤ neg_ℤ l <ℤ max_int w +ℤ neg_ℤ (min_int w)
    → signed_bits w l ≤ℤ signed_bits w u
    → (signed_bits w l ≤ℤ signed_bits w n) × (signed_bits w n ≤ℤ signed_bits w u)
signed_mono w l n u h ln nu near le =
    let half = 2 ^ (w - 1) in
    let turn =
      shifted_turn l u half (2 ^ w) (pow_pos (w - 1)) (halves w h)
        (rw (max_int_lem w, min_int_lem w) at near) in
    let sl = signed_bits-shift w l h in
    let sn = signed_bits-shift w n h in
    let su = signed_bits-shift w u h in
    let le' = rw (sl, su) at le in
    let m =
      residues (l +ℤ pos half) (n +ℤ pos half) (u +ℤ pos half) (2 ^ w) (pow_pos w) (omega int_laws)
        (omega int_laws) turn (omega int_laws) in
    rw (sl, sn, su) (omega (int_laws, m.0), omega (int_laws, m.1))

signed_bits-IsExtension : (w : ℕ) → 0 < w → IsExtension (signed_bits w) (min_int w) (max_int w)
signed_bits-IsExtension w h = record {
  lo_le = λ n. (signed_bits_range w n h).0;
  le_hi = λ n. (signed_bits_range w n h).1;
  mono = λ l n u ln nu near le. signed_mono w l n u h ln nu near le;
}

-- For a positive width, the zero extension of a valid interval with a member returns, and the
-- interval that it returns contains the zero extension of every member, also where the members
-- wrap around.
pub zero_extend-contains :
    (C : CppInt) (w : ℕ) (i : Interval) (n : ℤ)
    → 0 < w
    → IsValid i
    → contains i n ≡ true
    → Returns (λ r. contains r (Number.zero_extend C w n) ≡ true) (zero_extend C w i)
unfolding zero_extend unsigned_int Extended.zero_extend
zero_extend-contains C w i n h v k =
    let not_zero : (w == 0) ≡ false = ground arith in
    rw (not_zero, max_uint_lem w, zero_extend-low_bits C w n h)
      (extend-contains (Extended.zero_extend C w) (λ m. pos (low_bits w m)) (pos 0)
        (pos (2 ^ w - 1)) (low_bits-IsExtension w h) (λ m. ap ok (zero_extend-low_bits C w m h)) i n
        v k)

-- For a positive width, the sign extension of a valid interval with a member returns, and the
-- interval that it returns contains the sign extension of every member, also where the members
-- wrap around.
pub sign_extend-contains :
    (C : CppInt) (w : ℕ) (i : Interval) (n : ℤ)
    → 0 < w
    → IsValid i
    → contains i n ≡ true
    → Returns (λ r. contains r (Number.sign_extend C w n) ≡ true) (sign_extend C w i)
unfolding sign_extend signed_int Extended.sign_extend
sign_extend-contains C w i n h v k =
    let not_zero : (w == 0) ≡ false = ground arith in
    rw (not_zero, sign_extend-signed_bits C w n h)
      (extend-contains (Extended.sign_extend C w) (signed_bits w) (min_int w) (max_int w)
        (signed_bits-IsExtension w h) (λ m. ap ok (sign_extend-signed_bits C w m h)) i n v k)
