-- ===== src/Arith/Linear/Normal.antt =====
-- The form that the operations of src/arith/linear_expression.hpp keep a linear expression in.
use prevail.Prelude.{suc, ◌≤◌, Bool, true, false, not, [], ◌∷◌, ◌≡◌, refl, arith, if◌then◌else◌}
use prevail.Prelude.Int.{ℤ, pos, eqb_ℤ}
use prevail.Prelude.Lists.{All}
use prevail.Arith.Linear.{
  Variable, VariableTerms, LinearExpression, without_zeros, of_terms, multiply_terms, multiply,
  plus_terms, subtract_terms, plus, negate, subtract, plus_number, plus_variable, subtract_number,
  subtract_variable,
}
use prevail.Arith.Linear.Terms.{From, From-le, assign-From}

-- The variables are in order, each once, and no coefficient is 0.
pub record IsNormal (e : LinearExpression) : Type 0 where
  pub sorted : From 0 e.variable_terms
  pub nonzero : All (λ term. eqb_ℤ term.1 (pos 0) ≡ false) e.variable_terms

abbrev AllNonzero : VariableTerms → Type 0
AllNonzero t = All (λ term. eqb_ℤ term.1 (pos 0) ≡ false) t

-- A term that is left out if its coefficient is 0.
kept-From :
    (b v : Variable) (c : ℤ) (t : VariableTerms) (zero : Bool)
    → b ≤ v
    → From (suc v) t
    → From b (if not zero then (v, c) ∷ t else t)
kept-From b v c t false h f = (h, f)
kept-From b v c t true h f = From-le (suc v) b t (omega (arith, h)) f

without_zeros-From : (b : Variable) (t : VariableTerms) → From b t → From b (without_zeros t)
unfolding without_zeros
without_zeros-From b [] f = tt
without_zeros-From b ((v, c) ∷ rest) f =
    kept-From b v c (without_zeros rest) _ (f.0) (without_zeros-From (suc v) rest (f.1))

kept-nonzero :
    (v : Variable) (c : ℤ) (t : VariableTerms) (zero : Bool)
    → eqb_ℤ c (pos 0) ≡ zero
    → AllNonzero t
    → AllNonzero (if not zero then (v, c) ∷ t else t)
kept-nonzero v c t false h f = (h, f)
kept-nonzero v c t true h f = f

without_zeros-nonzero : (t : VariableTerms) → AllNonzero (without_zeros t)
unfolding without_zeros
without_zeros-nonzero [] = tt
without_zeros-nonzero ((v, c) ∷ rest) =
    kept-nonzero v c (without_zeros rest) _ refl (without_zeros-nonzero rest)

of_terms-IsNormal : (t : VariableTerms) (n : ℤ) → From 0 t → IsNormal (of_terms t n)
unfolding of_terms
of_terms-IsNormal t n f = record {
  sorted = without_zeros-From 0 t f;
  nonzero = without_zeros-nonzero t;
}

multiply_terms-From :
    (b : Variable) (t : VariableTerms) (n : ℤ) → From b t → From b (multiply_terms t n)
unfolding multiply_terms
multiply_terms-From b [] n f = tt
multiply_terms-From b ((v, c) ∷ rest) n f = (f.0, multiply_terms-From (suc v) rest n (f.1))

plus_terms-From :
    (this t result : VariableTerms) → From 0 result → From 0 (plus_terms this t result)
unfolding plus_terms
plus_terms-From this [] result f = f
plus_terms-From this ((v, c) ∷ rest) result f =
    plus_terms-From this rest _ (assign-From 0 v _ result (omega arith) f)

subtract_terms-From :
    (this t result : VariableTerms) → From 0 result → From 0 (subtract_terms this t result)
unfolding subtract_terms
subtract_terms-From this [] result f = f
subtract_terms-From this ((v, c) ∷ rest) result f =
    subtract_terms-From this rest _ (assign-From 0 v _ result (omega arith) f)

-- The results of the operations on an expression.
pub record AllNormal (e f : LinearExpression) (v : Variable) (n : ℤ) : Type 0 where
  pub multiply-IsNormal : IsNormal (multiply e n)
  pub negate-IsNormal : IsNormal (negate e)
  pub plus-IsNormal : IsNormal (plus e f)
  pub plus_number-IsNormal : IsNormal (plus_number e n)
  pub plus_variable-IsNormal : IsNormal (plus_variable e v)
  pub subtract-IsNormal : IsNormal (subtract e f)
  pub subtract_number-IsNormal : IsNormal (subtract_number e n)
  pub subtract_variable-IsNormal : IsNormal (subtract_variable e v)

-- On an expression whose variables are in order, each operation gives one in which they are in
-- order, each once, without a coefficient of 0; the other operand may be any expression.
pub operations-IsNormal :
    (e f : LinearExpression) (v : Variable) (n : ℤ) → From 0 e.variable_terms → AllNormal e f v n
unfolding multiply negate plus plus_number plus_variable subtract subtract_number subtract_variable
operations-IsNormal e f v n s = record {
  multiply-IsNormal = of_terms-IsNormal _ _ (multiply_terms-From 0 e.variable_terms n s);
  negate-IsNormal = of_terms-IsNormal _ _ (multiply_terms-From 0 e.variable_terms _ s);
  plus-IsNormal = of_terms-IsNormal _ _ (plus_terms-From _ f.variable_terms _ s);
  plus_number-IsNormal = of_terms-IsNormal _ _ s;
  plus_variable-IsNormal = of_terms-IsNormal _ _ (assign-From 0 v _ _ (omega arith) s);
  subtract-IsNormal = of_terms-IsNormal _ _ (subtract_terms-From _ f.variable_terms _ s);
  subtract_number-IsNormal = of_terms-IsNormal _ _ s;
  subtract_variable-IsNormal = of_terms-IsNormal _ _ (assign-From 0 v _ _ (omega arith) s);
}
