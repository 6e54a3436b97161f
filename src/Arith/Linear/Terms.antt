-- ===== src/Arith/Linear/Terms.antt =====
-- The sum that a map of terms stands for, in src/arith/linear_expression.hpp.
use prevail.Prelude.{◌*◌, suc, ◌≤◌, ◌<◌, true, false, [], ◌∷◌, ◌==◌, ltb, ◌≡◌, sym, ap, arith}
use prevail.Prelude.Int.{
  ℤ, pos, pos_part, neg_part, ◌+ℤ◌, ◌-ℤ◌, ◌*ℤ◌, +ℤ_parts, -ℤ_parts, *ℤ_parts, eq_of_parts, int_laws,
}
use native.Mathlib.Decide.{ℕ_discrete, dec_le}
use prevail.Arith.Linear.{Variable, VariableTerms, coefficient_of, assign}

-- Distribution of products over sums and differences.
pub *ℤ_+ℤ : (a b c : ℤ) → (a +ℤ b) *ℤ c ≡ (a *ℤ c) +ℤ (b *ℤ c)
*ℤ_+ℤ a b c = omega (
  arith,
  ap (λ n. n * pos_part c) (+ℤ_parts a b),
  ap (λ n. n * neg_part c) (+ℤ_parts a b),
  *ℤ_parts (a +ℤ b) c,
  *ℤ_parts a c,
  *ℤ_parts b c,
  +ℤ_parts (a *ℤ c) (b *ℤ c),
  eq_of_parts,
)

pub *ℤ_-ℤ : (a b c : ℤ) → (a -ℤ b) *ℤ c ≡ (a *ℤ c) -ℤ (b *ℤ c)
*ℤ_-ℤ a b c = omega (
  arith,
  ap (λ n. n * pos_part c) (-ℤ_parts a b),
  ap (λ n. n * neg_part c) (-ℤ_parts a b),
  *ℤ_parts (a -ℤ b) c,
  *ℤ_parts a c,
  *ℤ_parts b c,
  -ℤ_parts (a *ℤ c) (b *ℤ c),
  eq_of_parts,
)

-- A product of three, with the last factor moved.
pub *ℤ_right_comm : (a b c : ℤ) → (a *ℤ b) *ℤ c ≡ (a *ℤ c) *ℤ b
*ℤ_right_comm a b c = omega (
  arith,
  ap (λ n. n * pos_part c) (*ℤ_parts a b),
  ap (λ n. n * neg_part c) (*ℤ_parts a b),
  ap (λ n. n * pos_part b) (*ℤ_parts a c),
  ap (λ n. n * neg_part b) (*ℤ_parts a c),
  *ℤ_parts (a *ℤ b) c,
  *ℤ_parts (a *ℤ c) b,
  eq_of_parts,
)

pub zero-*ℤ : (a : ℤ) → pos 0 *ℤ a ≡ pos 0
zero-*ℤ a = omega (arith, *ℤ_parts (pos 0) a, eq_of_parts)

unfoldable pub sum : (Variable → ℤ) → VariableTerms → ℤ
sum s [] = pos 0
sum s ((v, c) ∷ rest) = (c *ℤ s v) +ℤ sum s rest

-- The three cases of two variables, with what the tests say.
pub data Ordered (v w : Variable) : Type 0 where
  before : (v == w) ≡ false → ltb v w ≡ true → v < w → Ordered v w
  equal : v ≡ w → (v == w) ≡ true → Ordered v w
  after : (v == w) ≡ false → ltb v w ≡ false → w < v → Ordered v w

pub ordered : (v w : Variable) → Ordered v w
ordered v w = elim (ℕ_discrete v w) [
  | yes e ↦ equal e (ground arith)
  | no n ↦ elim (dec_le (suc v) w) [
    | yes h ↦ before (ground arith) (ground arith) h
    | no h ↦ after (ground arith) (ground arith) (omega arith)
  ]
]

-- Assigning replaces one term of the sum.
pub sum-assign :
    (s : Variable → ℤ) (v : Variable) (c : ℤ) (t : VariableTerms)
    → sum s (assign v c t) +ℤ coefficient_of v t *ℤ s v ≡ sum s t +ℤ c *ℤ s v
unfolding assign coefficient_of sum
sum-assign s v c [] = rw (zero-*ℤ (s v)) (omega int_laws)
sum-assign s v c ((w, d) ∷ rest) = elim (ordered v w) [
  | before e l h ↦ rw (e, l, zero-*ℤ (s v)) (omega int_laws)
  | equal same e ↦ rw (e, ap s (sym same)) (omega int_laws)
  | after e l h ↦
      rw (e, l)
        (let same = sum-assign s v c rest in
          omega (int_laws, ap (λ n. pos_part n) same, ap (λ n. neg_part n) same))
]

-- The other coefficients stay.
pub coefficient_of-assign :
    (u v : Variable) (c : ℤ) (t : VariableTerms)
    → (u == v) ≡ false
    → coefficient_of u (assign v c t) ≡ coefficient_of u t
unfolding assign coefficient_of
coefficient_of-assign u v c [] h = ground arith
coefficient_of-assign u v c ((w, d) ∷ rest) h = ground (arith, coefficient_of-assign u v c rest h)

-- Entries in the order of their variables, from `b` on.
abbrev pub From : Variable → VariableTerms → Type 0
From b [] = Unit
From b ((v, c) ∷ rest) = (b ≤ v) × From (suc v) rest

pub From-le : (b b' : Variable) (t : VariableTerms) → b' ≤ b → From b t → From b' t
From-le b b' [] h f = tt
From-le b b' ((v, c) ∷ rest) h f = (omega (arith, f.0, h), f.1)

pub assign-From :
    (b v : Variable) (c : ℤ) (t : VariableTerms) → b ≤ v → From b t → From b (assign v c t)
unfolding assign
assign-From b v c [] h f = (h, tt)
assign-From b v c ((w, d) ∷ rest) h f = elim (ordered v w) [
  | before e l lt ↦ rw (e, l) (h, (omega (arith, lt), f.1))
  | equal same e ↦ rw e (h, rw same (f.1))
  | after e l lt ↦ rw (e, l) (f.0, assign-From (suc w) v c rest (omega (arith, lt)) (f.1))
]
