-- ===== src/Arith/Linear/Meaning.antt =====
-- The value of a linear expression of src/arith/linear_expression.hpp under values of its variables,
-- against its operations.
use prevail.Prelude.{suc, ◌≤◌, false, [], ◌∷◌, ◌≡◌, refl, sym, ap, ◌∙◌, ◌⊎◌, inl, inr, arith}
use prevail.Prelude.Int.{
  ℤ, pos, negsuc, pos_part, neg_part, ◌+ℤ◌, ◌-ℤ◌, ◌*ℤ◌, neg_ℤ, eqb_ℤ, *ℤ_parts, int_laws,
  eq_of_parts, ℤ-discrete,
}
use prevail.Arith.Linear.{
  Variable, VariableTerms, LinearExpression, coefficient_of, assign, without_zeros, of_terms,
  multiply_terms, multiply, plus_terms, subtract_terms, plus, negate, subtract,
}
use prevail.Arith.Linear.Terms.{
  sum, sum-assign, coefficient_of-assign, From, *ℤ_+ℤ, *ℤ_-ℤ, *ℤ_right_comm, zero-*ℤ,
}

unfoldable pub value : (Variable → ℤ) → LinearExpression → ℤ
value s e = sum s e.variable_terms +ℤ e.constant_term

-- The entries are in the order of the variables, each once.
unfoldable pub IsSorted : LinearExpression → Type 0
IsSorted e = From 0 e.variable_terms

eqb-zero : (c : ℤ) → (c ≡ pos 0) ⊎ (eqb_ℤ c (pos 0) ≡ false)
eqb-zero c = elim (ℤ-discrete c (pos 0)) [
  | yes e ↦ inl e
  | no n ↦ inr (ground (arith, eq_of_parts c (pos 0)))
]

-- The sums after one round of the loops of `plus` and `subtract`.
pub added :
    (new old k m c rest : ℤ) → new +ℤ k ≡ old +ℤ m → m ≡ k +ℤ c → new +ℤ rest ≡ old +ℤ (c +ℤ rest)
added new old k m c rest e d = omega (
  int_laws,
  ap (λ n. pos_part n) e,
  ap (λ n. neg_part n) e,
  ap (λ n. pos_part n) d,
  ap (λ n. neg_part n) d,
)

subtracted :
    (new old k m c rest : ℤ) → new +ℤ k ≡ old +ℤ m → m ≡ k -ℤ c → new -ℤ rest ≡ old -ℤ (c +ℤ rest)
subtracted new old k m c rest e d = omega (
  int_laws,
  ap (λ n. pos_part n) e,
  ap (λ n. neg_part n) e,
  ap (λ n. pos_part n) d,
  ap (λ n. neg_part n) d,
)

module _ (s : Variable → ℤ) where
  sum-without_zeros : (t : VariableTerms) → sum s (without_zeros t) ≡ sum s t
  unfolding sum without_zeros
  sum-without_zeros [] = refl
  sum-without_zeros ((v, c) ∷ rest) = elim (eqb-zero c) [
    | inl e ↦ rw (e, zero-*ℤ (s v)) (sum-without_zeros rest ∙ omega int_laws)
    | inr e ↦ rw e (ap (λ n. (c *ℤ s v) +ℤ n) (sum-without_zeros rest))
  ]

  pub value-of_terms : (t : VariableTerms) (n : ℤ) → value s (of_terms t n) ≡ sum s t +ℤ n
  unfolding value of_terms
  value-of_terms t n = ap (λ m. m +ℤ n) (sum-without_zeros t)

  sum-multiply_terms : (t : VariableTerms) (n : ℤ) → sum s (multiply_terms t n) ≡ sum s t *ℤ n
  unfolding sum multiply_terms
  sum-multiply_terms [] n = sym (zero-*ℤ n)
  sum-multiply_terms ((v, c) ∷ rest) n =
      rw (sum-multiply_terms rest n, *ℤ_right_comm c n (s v))
        (sym (*ℤ_+ℤ (c *ℤ s v) (sum s rest) n))

  -- The loop of `plus`, where the coefficients of the variables to come are still those of `this`.
  sum-plus_terms :
      (this t result : VariableTerms) (b : Variable)
      → From b t
      → ((u : Variable) → b ≤ u → coefficient_of u result ≡ coefficient_of u this)
      → sum s (plus_terms this t result) ≡ sum s result +ℤ sum s t
  unfolding sum plus_terms
  sum-plus_terms this [] result b f same = omega int_laws
  sum-plus_terms this ((v, c) ∷ rest) result b f same =
      sum-plus_terms this rest (assign v (coefficient_of v this +ℤ c) result) (suc v) (f.1)
        (λ u h. coefficient_of-assign u v _ result (ground arith) ∙ same u (omega (arith, h, f.0)))
      ∙ added _ (sum s result) (coefficient_of v result *ℤ s v) _ (c *ℤ s v) (sum s rest)
          (sum-assign s v (coefficient_of v this +ℤ c) result)
          (*ℤ_+ℤ (coefficient_of v this) c (s v)
            ∙ ap (λ k. k *ℤ s v +ℤ c *ℤ s v) (sym (same v (f.0))))

  sum-subtract_terms :
      (this t result : VariableTerms) (b : Variable)
      → From b t
      → ((u : Variable) → b ≤ u → coefficient_of u result ≡ coefficient_of u this)
      → sum s (subtract_terms this t result) ≡ sum s result -ℤ sum s t
  unfolding sum subtract_terms
  sum-subtract_terms this [] result b f same = omega int_laws
  sum-subtract_terms this ((v, c) ∷ rest) result b f same =
      sum-subtract_terms this rest (assign v (coefficient_of v this -ℤ c) result) (suc v) (f.1)
        (λ u h. coefficient_of-assign u v _ result (ground arith) ∙ same u (omega (arith, h, f.0)))
      ∙ subtracted _ (sum s result) (coefficient_of v result *ℤ s v) _ (c *ℤ s v) (sum s rest)
          (sum-assign s v (coefficient_of v this -ℤ c) result)
          (*ℤ_-ℤ (coefficient_of v this) c (s v)
            ∙ ap (λ k. k *ℤ s v -ℤ c *ℤ s v) (sym (same v (f.0))))

  -- The value of a sum is the sum of the values, where the second expression is sorted.
  pub value-plus :
      (e f : LinearExpression) → IsSorted f → value s (plus e f) ≡ value s e +ℤ value s f
  unfolding value plus IsSorted
  value-plus e f h =
      value-of_terms _ (e.constant_term +ℤ f.constant_term)
      ∙ ap (λ n. n +ℤ (e.constant_term +ℤ f.constant_term))
          (sum-plus_terms e.variable_terms f.variable_terms e.variable_terms 0 h (λ u l. refl))
      ∙ omega int_laws

  -- The value of a difference is the difference of the values, where the second expression is sorted.
  pub value-subtract :
      (e f : LinearExpression) → IsSorted f → value s (subtract e f) ≡ value s e -ℤ value s f
  unfolding value subtract IsSorted
  value-subtract e f h =
      value-of_terms _ (e.constant_term -ℤ f.constant_term)
      ∙ ap (λ n. n +ℤ (e.constant_term -ℤ f.constant_term))
          (sum-subtract_terms e.variable_terms f.variable_terms e.variable_terms 0 h (λ u l. refl))
      ∙ omega int_laws

  -- The value of a multiple is the multiple of the value.
  pub value-multiply : (e : LinearExpression) (n : ℤ) → value s (multiply e n) ≡ value s e *ℤ n
  unfolding value multiply
  value-multiply e n =
      value-of_terms _ (e.constant_term *ℤ n)
      ∙ ap (λ m. m +ℤ (e.constant_term *ℤ n)) (sum-multiply_terms e.variable_terms n)
      ∙ sym (*ℤ_+ℤ (sum s e.variable_terms) e.constant_term n)

  -- The value of the negation is the negation of the value.
  pub value-negate : (e : LinearExpression) → value s (negate e) ≡ neg_ℤ (value s e)
  unfolding negate
  value-negate e = value-multiply e (negsuc 0) ∙ omega (int_laws, *ℤ_parts (value s e) (negsuc 0))
