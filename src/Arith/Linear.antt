-- ===== src/Arith/Linear.antt =====
-- `class LinearExpression` of src/arith/linear_expression.hpp, with the operators of
-- src/arith/dsl_syntax.hpp. A variable is its `_id` (src/arith/variable.hpp), and a
-- `std::map<Variable, Number>` the list of its entries, in the order of the variables.
pub mod Terms
pub mod Meaning
pub mod Values
pub mod Normal
pub mod Constraint
use prevail.Prelude.{ℕ, Bool, true, false, not, List, [], ◌∷◌, ◌==◌, ltb, if◌then◌else◌}
use prevail.Prelude.Int.{ℤ, pos, negsuc, ◌+ℤ◌, ◌-ℤ◌, ◌*ℤ◌, eqb_ℤ}
use prevail.Arith.Number.{Number}

abbrev pub Variable : Type 0
Variable = ℕ

abbrev pub VariableTerms : Type 0
VariableTerms = List (Variable × Number)

pub record LinearExpression : Type 0 where
  pub variable_terms : VariableTerms
  pub constant_term : Number

-- `find`, and 0 where there is no entry.
unfoldable pub coefficient_of : Variable → VariableTerms → Number
coefficient_of v [] = pos 0
coefficient_of v ((w, c) ∷ rest) =
    let further = coefficient_of v rest in if v == w then c else if ltb v w then pos 0 else further

-- `variable_terms[variable] = coefficient`
unfoldable pub assign : Variable → Number → VariableTerms → VariableTerms
assign v c [] = (v, c) ∷ []
assign v c ((w, d) ∷ rest) =
    let further = assign v c rest in
    if v == w then (v, c) ∷ rest else if ltb v w then (v, c) ∷ (w, d) ∷ rest else (w, d) ∷ further

-- The loop of the constructor from terms and a constant.
unfoldable pub without_zeros : VariableTerms → VariableTerms
without_zeros [] = []
without_zeros ((v, c) ∷ rest) =
    let others = without_zeros rest in if not (eqb_ℤ c (pos 0)) then (v, c) ∷ others else others

unfoldable pub of_terms : VariableTerms → Number → LinearExpression
of_terms terms constant = record { variable_terms = without_zeros terms; constant_term = constant }

unfoldable pub of_number : Number → LinearExpression
of_number n = record { variable_terms = []; constant_term = n }

unfoldable pub of_variable : Variable → LinearExpression
of_variable v = record { variable_terms = (v, pos 1) ∷ []; constant_term = pos 0 }

-- The constructor from a coefficient and a variable.
unfoldable pub term : Number → Variable → LinearExpression
term c v = record {
  variable_terms = if not (eqb_ℤ c (pos 0)) then (v, c) ∷ [] else [];
  constant_term = pos 0;
}

abbrev pub is_nil : VariableTerms → Bool
is_nil [] = true
is_nil (t ∷ ts) = false

unfoldable pub is_constant : LinearExpression → Bool
is_constant e = is_nil e.variable_terms

unfoldable pub multiply_terms : VariableTerms → Number → VariableTerms
multiply_terms [] n = []
multiply_terms ((v, c) ∷ rest) n = (v, c *ℤ n) ∷ multiply_terms rest n

unfoldable pub multiply : LinearExpression → Number → LinearExpression
multiply e n = of_terms (multiply_terms e.variable_terms n) (e.constant_term *ℤ n)

unfoldable pub plus_number : LinearExpression → Number → LinearExpression
plus_number e n = of_terms e.variable_terms (e.constant_term +ℤ n)

unfoldable pub plus_variable : LinearExpression → Variable → LinearExpression
plus_variable e v =
    of_terms (assign v (coefficient_of v e.variable_terms +ℤ pos 1) e.variable_terms)
      e.constant_term

-- The loops of `plus` and of `subtract`, which assign to a copy of the terms of `this`.
unfoldable pub plus_terms : VariableTerms → VariableTerms → VariableTerms → VariableTerms
plus_terms this [] result = result
plus_terms this ((v, c) ∷ rest) result =
    plus_terms this rest (assign v (coefficient_of v this +ℤ c) result)

unfoldable pub subtract_terms : VariableTerms → VariableTerms → VariableTerms → VariableTerms
subtract_terms this [] result = result
subtract_terms this ((v, c) ∷ rest) result =
    subtract_terms this rest (assign v (coefficient_of v this -ℤ c) result)

unfoldable pub plus : LinearExpression → LinearExpression → LinearExpression
plus e f =
    of_terms (plus_terms e.variable_terms f.variable_terms e.variable_terms)
      (e.constant_term +ℤ f.constant_term)

unfoldable pub negate : LinearExpression → LinearExpression
negate e = multiply e (negsuc 0)

unfoldable pub subtract_number : LinearExpression → Number → LinearExpression
subtract_number e n = of_terms e.variable_terms (e.constant_term -ℤ n)

unfoldable pub subtract_variable : LinearExpression → Variable → LinearExpression
subtract_variable e v =
    of_terms (assign v (coefficient_of v e.variable_terms -ℤ pos 1) e.variable_terms)
      e.constant_term

unfoldable pub subtract : LinearExpression → LinearExpression → LinearExpression
subtract e f =
    of_terms (subtract_terms e.variable_terms f.variable_terms e.variable_terms)
      (e.constant_term -ℤ f.constant_term)
