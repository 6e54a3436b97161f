-- ===== src/Tests/Expressions.antt =====
-- Linear expressions, constraints and 64-bit integers: the theorems at 2 x - 3 y + 5 and x.
use prevail.Prelude.{◌≡◌, ◌↔◌, refl, true, [], ◌∷◌, arith}
use prevail.Prelude.Int.{ℤ, pos, negsuc, ◌/ℤ◌}
use prevail.Arith.Number
use prevail.Arith.Linear.{Variable, LinearExpression}
use prevail.Arith.Linear.Meaning.{IsSorted}
use prevail.Arith.Linear.Values.{Values, operations-Values}
use prevail.Arith.Linear.Normal.{AllNormal, operations-IsNormal}
use prevail.Arith.Linear.Constraint.{
  LinearConstraint, constraint, ConstraintKind, negate_constraint, is_tautology, is_contradiction,
  Holds, negate_constraint-Holds, verdict-Holds, Comparisons, operators-Holds,
}
use prevail.Arith.SafeInt.Exact.{AllExact, operations-AllExact, exact, div-exact}
use prevail.Arith.SafeInt

abbrev point : Variable → ℤ
point v = pos v

abbrev two_terms : LinearExpression
two_terms = record { variable_terms = (0, pos 2) ∷ (1, negsuc 2) ∷ []; constant_term = pos 5 }

abbrev one_term : LinearExpression
one_term = record { variable_terms = (0, pos 1) ∷ []; constant_term = pos 0 }

two_terms-IsSorted : IsSorted two_terms
unfolding IsSorted
two_terms-IsSorted = (omega arith, (omega arith, tt))

one_term-IsSorted : IsSorted one_term
unfolding IsSorted
one_term-IsSorted = (omega arith, tt)

operations-Values_example : Values point one_term two_terms 1 (negsuc 6)
operations-Values_example =
    operations-Values point one_term two_terms 1 (negsuc 6) two_terms-IsSorted

operations-IsNormal_example : AllNormal two_terms one_term 0 (negsuc 1)
operations-IsNormal_example =
    operations-IsNormal two_terms one_term 0 (negsuc 1) (omega arith, (omega arith, tt))

abbrev not_above : LinearConstraint
not_above = constraint two_terms ConstraintKind.less_than_or_equals_zero

negate_constraint-Holds_example :
    Holds point (negate_constraint not_above) ↔ (¬ Holds point not_above)
negate_constraint-Holds_example = negate_constraint-Holds not_above point

verdict-Holds_example :
    (is_tautology not_above ≡ true → Holds point not_above)
    × (is_contradiction not_above ≡ true → ¬ Holds point not_above)
verdict-Holds_example = verdict-Holds not_above point

operators-Holds_example : Comparisons two_terms one_term point
operators-Holds_example =
    operators-Holds two_terms one_term point two_terms-IsSorted one_term-IsSorted

operations-AllExact_example : AllExact (pos 9223372036854775807) (negsuc 4)
unfolding Number.fits
operations-AllExact_example = operations-AllExact (pos 9223372036854775807) (negsuc 4) refl refl

abbrev least : ℤ
least = negsuc 9223372036854775807

-- The one quotient of two 64-bit integers that overflows.
div-exact_example : SafeInt.div least (negsuc 0) ≡ exact (least /ℤ negsuc 0)
unfolding Number.fits
div-exact_example = div-exact least (negsuc 0) refl refl
