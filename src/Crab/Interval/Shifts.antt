-- ===== src/Crab/Interval/Shifts.antt =====
-- `shl` of src/crab/interval.cpp, and the shifts of the members.
use prevail.Prelude.{
  ℕ, zero, suc, ◌*◌, ◌^◌, ◌≡◌, refl, sym, ap, ◌∙◌, Option, some, none, true, false, Bool, arith,
  inl, inr, if◌then◌else◌,
}
use prevail.Prelude.Int.{ℤ, pos, ◌*ℤ◌, nat_abs}
use prevail.Prelude.Result.{Result, ok, Returns, returns}
use prevail.Arith.Extended
use prevail.Arith.Extended.{Bound, IsNormal, number_of, plus_inf, minus_inf, finite}
use prevail.Crab.Interval.{
  Interval, interval, is_bottom, contains, singleton, is_singleton, top, of_number, mul,
}
use prevail.Crab.Interval.Bits.{shl, shift_by, double_times}
use prevail.Crab.Interval.Members.{IsValid, interval-IsValid, contains_of_bounds, interval-cases}
use prevail.Arith.Extended.Order.{le_refl}
use prevail.Crab.Interval.Sums.{Holds, neither_empty}
use prevail.Crab.Interval.Products.{mul-Holds}
use mathlib.Core.Path.{subst}

pow_step : (a k : ℕ) → a * 2 * 2 ^ k ≡ a * 2 ^ suc k
pow_step a k = grind arith

twice : (a : ℕ) → pos a *ℤ pos 2 ≡ pos (a * 2)
unfolding ◌*ℤ◌
twice a = ground arith

double_times-pos : (k a : ℕ) → double_times k (pos a) ≡ pos (a * 2 ^ k)
unfolding double_times
double_times-pos zero a = ap pos (omega arith)
double_times-pos (suc k) a =
    ap (double_times k) (twice a) ∙ double_times-pos k (a * 2) ∙ ap pos (pow_step a k)

top-IsValid : IsValid top
unfolding interval Extended.gt Extended.le
top-IsValid = interval-IsValid minus_inf plus_inf

top-Holds : (n : ℤ) → Holds n top
unfolding contains is_bottom Extended.gt Extended.le
top-Holds n = (top-IsValid, refl)

of_number-IsValid : (n : ℤ) → IsValid (of_number n)
of_number-IsValid n = elim (interval-cases (finite n) (finite n)) [
  | inl c ↦ ground (arith, le_refl (finite n))
  | inr c ↦ subst IsValid (c.1) (interval-IsValid (number_of n) (number_of n))
]

pub of_number-Holds : (n : ℤ) → Holds n (of_number n)
of_number-Holds n = (
  of_number-IsValid n,
  contains_of_bounds (of_number n) n (le_refl (finite n)) (le_refl (finite n)),
)

singleton-only : (x : Interval) (n m : ℤ) → contains x n ≡ true → singleton x ≡ some m → n ≡ m
unfolding singleton is_singleton Extended.eq Extended.number contains Extended.le
singleton-only x n m h e = ground arith

if-Returns :
    {P : Interval → Type 0} {r s : Result Interval} (t : Bool)
    → Returns P r
    → Returns P s
    → Returns P (if t then r else s)
if-Returns true h k = h
if-Returns false h k = k

-- The left shift of a valid interval by an interval of shift counts returns a valid interval that
-- holds every member times two to the power of every natural number among the counts.
pub shl-Holds :
    {i x : Interval} (n : ℤ) (k : ℕ)
    → Holds n i
    → Holds (pos k) x
    → Returns (Holds (n *ℤ pos (2 ^ k))) (shl i x)
unfolding shl shift_by
shl-Holds {i} {x} n k h g = rw (neither_empty n (pos k) h g) (by_count (singleton x) refl)
  where
    factor-Holds :
        (m : ℤ) → pos k ≡ m → Holds (pos (2 ^ k)) (of_number (double_times (nat_abs m) (pos 1)))
    factor-Holds m e =
        subst (λ d. Holds (pos (2 ^ k)) (of_number d))
          (sym (
            ap (λ m. double_times (nat_abs m) (pos 1)) (sym e)
            ∙ double_times-pos k 1
            ∙ ap pos (omega arith)))
          (of_number-Holds (pos (2 ^ k)))

    by_count :
        (s : Option ℤ)
        → singleton x ≡ s
        → Returns
            (Holds (n *ℤ pos (2 ^ k)))
            (elim s [ some m ↦ shift_by (λ f. ok (mul i f)) m | none ↦ ok top ])
    by_count none e = returns (top-Holds _)
    by_count (some m) e = if-Returns _ (returns (top-Holds _)) (
        if-Returns _
          (returns
            (mul-Holds n (pos (2 ^ k)) h (factor-Holds m (singleton-only x (pos k) m (g.1) e))))
          (returns (top-Holds _)))
