-- ===== src/Arith/Linear/Values.antt =====
-- The value of each operation of src/arith/linear_expression.hpp.
use prevail.Prelude.{◌≡◌, ap, ◌∙◌}
use prevail.Prelude.Int.{ℤ, pos, pos_part, neg_part, ◌+ℤ◌, ◌-ℤ◌, ◌*ℤ◌, neg_ℤ, *ℤ_parts, int_laws}
use prevail.Arith.Linear.{
  Variable, LinearExpression, coefficient_of, multiply, plus, negate, subtract, plus_number,
  plus_variable, subtract_number, subtract_variable,
}
use prevail.Arith.Linear.Terms.{sum, sum-assign, *ℤ_+ℤ, *ℤ_-ℤ}
use prevail.Arith.Linear.Meaning.{
  value, IsSorted, added, value-of_terms, value-plus, value-subtract, value-multiply, value-negate,
}

lessened :
    (new old k m c rest : ℤ) → new +ℤ k ≡ old +ℤ m → m ≡ k -ℤ c → new +ℤ rest ≡ (old +ℤ rest) -ℤ c
lessened new old k m c rest e d = omega (
  int_laws,
  ap (λ n. pos_part n) e,
  ap (λ n. neg_part n) e,
  ap (λ n. pos_part n) d,
  ap (λ n. neg_part n) d,
)

one-*ℤ : (a : ℤ) → pos 1 *ℤ a ≡ a
one-*ℤ a = omega (int_laws, *ℤ_parts (pos 1) a)

module _ (s : Variable → ℤ) (e : LinearExpression) (v : Variable) where
  value-plus_variable : value s (plus_variable e v) ≡ value s e +ℤ s v
  unfolding value plus_variable
  value-plus_variable =
      let k = coefficient_of v e.variable_terms in
      value-of_terms s _ e.constant_term
      ∙ added _ (sum s e.variable_terms) (k *ℤ s v) _ (s v) e.constant_term
          (sum-assign s v (k +ℤ pos 1) e.variable_terms)
          (*ℤ_+ℤ k (pos 1) (s v) ∙ ap (λ n. k *ℤ s v +ℤ n) (one-*ℤ (s v)))
      ∙ omega int_laws

  value-subtract_variable : value s (subtract_variable e v) ≡ value s e -ℤ s v
  unfolding value subtract_variable
  value-subtract_variable =
      let k = coefficient_of v e.variable_terms in
      value-of_terms s _ e.constant_term
      ∙ lessened _ (sum s e.variable_terms) (k *ℤ s v) _ (s v) e.constant_term
          (sum-assign s v (k -ℤ pos 1) e.variable_terms)
          (*ℤ_-ℤ k (pos 1) (s v) ∙ ap (λ n. k *ℤ s v -ℤ n) (one-*ℤ (s v)))

value-plus_number :
    (s : Variable → ℤ) (e : LinearExpression) (n : ℤ) → value s (plus_number e n) ≡ value s e +ℤ n
unfolding value plus_number
value-plus_number s e n = value-of_terms s e.variable_terms (e.constant_term +ℤ n) ∙ omega int_laws

value-subtract_number :
    (s : Variable → ℤ) (e : LinearExpression) (n : ℤ)
    → value s (subtract_number e n) ≡ value s e -ℤ n
unfolding value subtract_number
value-subtract_number s e n =
    value-of_terms s e.variable_terms (e.constant_term -ℤ n) ∙ omega int_laws

-- The values of the results of the operations.
pub record Values (s : Variable → ℤ) (e f : LinearExpression) (v : Variable) (n : ℤ) : Type 0 where
  pub plus-value : value s (plus e f) ≡ value s e +ℤ value s f
  pub subtract-value : value s (subtract e f) ≡ value s e -ℤ value s f
  pub multiply-value : value s (multiply e n) ≡ value s e *ℤ n
  pub negate-value : value s (negate e) ≡ neg_ℤ (value s e)
  pub plus_number-value : value s (plus_number e n) ≡ value s e +ℤ n
  pub subtract_number-value : value s (subtract_number e n) ≡ value s e -ℤ n
  pub plus_variable-value : value s (plus_variable e v) ≡ value s e +ℤ s v
  pub subtract_variable-value : value s (subtract_variable e v) ≡ value s e -ℤ s v

-- Whatever the values of the variables, the value of a sum, difference, multiple or negation of
-- expressions, and of an expression with a number or a variable added or subtracted, is that of
-- their values, where the variables of the second expression are in order.
pub operations-Values :
    (s : Variable → ℤ) (e f : LinearExpression) (v : Variable) (n : ℤ)
    → IsSorted f
    → Values s e f v n
operations-Values s e f v n h = record {
  plus-value = value-plus s e f h;
  subtract-value = value-subtract s e f h;
  multiply-value = value-multiply s e n;
  negate-value = value-negate s e;
  plus_number-value = value-plus_number s e n;
  subtract_number-value = value-subtract_number s e n;
  plus_variable-value = value-plus_variable s e v;
  subtract_variable-value = value-subtract_variable s e v;
}
