-- ===== src/Arith/Linear/Constraint.antt =====
-- `class LinearConstraint` of src/arith/linear_constraint.hpp, and the comparisons of
-- src/arith/dsl_syntax.hpp that make one.
use prevail.Prelude.{◌≡◌, ◌≢◌, ◌↔◌, Bool, true, not, ◌&&◌, [], ◌∷◌, arith, ap}
use prevail.Prelude.Int.{
  ℤ, pos, neg_ℤ, neg_ℤ_parts, ℤ-discrete, pos_part, neg_part, ◌-ℤ◌, ◌+ℤ◌, ◌≤ℤ◌, ◌<ℤ◌, leb_ℤ, ltb_ℤ,
  eqb_ℤ, -ℤ_parts, int_laws, eq_of_parts,
}
use mathlib.Core.Path.{subst}
use prevail.Arith.Linear.{
  Variable, LinearExpression, VariableTerms, is_nil, is_constant, of_number, of_variable, negate,
  subtract,
}
use prevail.Arith.Linear.Terms.{sum}
use prevail.Arith.Linear.Meaning.{value, IsSorted, value-negate, value-subtract}

pub data ConstraintKind : Type 0 where
  equals_zero less_than_or_equals_zero less_than_zero not_zero : ConstraintKind

pub record LinearConstraint : Type 0 where
  pub expression : LinearExpression
  pub kind : ConstraintKind

abbrev pub constraint : LinearExpression → ConstraintKind → LinearConstraint
constraint e k = record { expression = e; kind = k }

-- The switch of `is_tautology`, on a constant.
unfoldable pub compares : ConstraintKind → ℤ → Bool
compares ConstraintKind.equals_zero n = eqb_ℤ n (pos 0)
compares ConstraintKind.less_than_or_equals_zero n = leb_ℤ n (pos 0)
compares ConstraintKind.less_than_zero n = ltb_ℤ n (pos 0)
compares ConstraintKind.not_zero n = not (eqb_ℤ n (pos 0))

unfoldable pub is_tautology : LinearConstraint → Bool
is_tautology c = is_constant c.expression && compares c.kind c.expression.constant_term

unfoldable pub is_contradiction : LinearConstraint → Bool
is_contradiction c = is_constant c.expression && not (is_tautology c)

unfoldable pub negated : LinearExpression → ConstraintKind → LinearConstraint
negated e ConstraintKind.not_zero = constraint e ConstraintKind.equals_zero
negated e ConstraintKind.equals_zero = constraint e ConstraintKind.not_zero
negated e ConstraintKind.less_than_zero =
    constraint (negate e) ConstraintKind.less_than_or_equals_zero
negated e ConstraintKind.less_than_or_equals_zero =
    constraint (negate e) ConstraintKind.less_than_zero

abbrev pub negate_constraint : LinearConstraint → LinearConstraint
negate_constraint c = negated c.expression c.kind

unfoldable pub false_const : LinearConstraint
false_const = constraint (of_number (pos 0)) ConstraintKind.not_zero

unfoldable pub true_const : LinearConstraint
true_const = constraint (of_number (pos 0)) ConstraintKind.equals_zero

-- The operators of src/arith/dsl_syntax.hpp.
abbrev pub le : LinearExpression → LinearExpression → LinearConstraint
le e f = constraint (subtract e f) ConstraintKind.less_than_or_equals_zero

abbrev pub lt : LinearExpression → LinearExpression → LinearConstraint
lt e f = constraint (subtract e f) ConstraintKind.less_than_zero

abbrev pub ge : LinearExpression → LinearExpression → LinearConstraint
ge e f = le f e

abbrev pub gt : LinearExpression → LinearExpression → LinearConstraint
gt e f = lt f e

abbrev pub equal : LinearExpression → LinearExpression → LinearConstraint
equal e f = constraint (subtract e f) ConstraintKind.equals_zero

abbrev pub not_equal : LinearExpression → LinearExpression → LinearConstraint
not_equal e f = constraint (subtract e f) ConstraintKind.not_zero

abbrev pub eq : Variable → Variable → LinearConstraint
eq a b = equal (of_variable a) (of_variable b)

abbrev pub neq : Variable → Variable → LinearConstraint
neq a b = not_equal (of_variable a) (of_variable b)

-- What a constraint says of the value of its expression.
abbrev pub Compares : ConstraintKind → ℤ → Type 0
Compares ConstraintKind.equals_zero n = n ≡ pos 0
Compares ConstraintKind.less_than_or_equals_zero n = n ≤ℤ pos 0
Compares ConstraintKind.less_than_zero n = n <ℤ pos 0
Compares ConstraintKind.not_zero n = n ≢ pos 0

abbrev pub Holds : (Variable → ℤ) → LinearConstraint → Type 0
Holds s c = Compares c.kind (value s c.expression)

compares_iff : (k : ConstraintKind) (n : ℤ) → (compares k n ≡ true) ↔ Compares k n
unfolding compares
compares_iff ConstraintKind.equals_zero n = ground (arith, eq_of_parts n (pos 0))
compares_iff ConstraintKind.less_than_or_equals_zero n = ground arith
compares_iff ConstraintKind.less_than_zero n = ground arith
compares_iff ConstraintKind.not_zero n = ground (arith, eq_of_parts n (pos 0))

neg-lt : (n : ℤ) → (neg_ℤ n <ℤ pos 0) ↔ (¬ (n ≤ℤ pos 0))
neg-lt n = ground (arith, neg_ℤ_parts n)

neg-le : (n : ℤ) → (neg_ℤ n ≤ℤ pos 0) ↔ (¬ (n <ℤ pos 0))
neg-le n = ground (arith, neg_ℤ_parts n)

zero-or-not : (n : ℤ) → (n ≡ pos 0) ↔ (¬ (n ≢ pos 0))
zero-or-not n = elim (ℤ-discrete n (pos 0)) [
  | yes e ↦ (λ _ k. k e, λ _. e)
  | no d ↦ (λ e k. d e, λ k. absurd (k d))
]

negated-Compares :
    (e : LinearExpression) (k : ConstraintKind) (s : Variable → ℤ)
    → Holds s (negated e k) ↔ (¬ Compares k (value s e))
unfolding negated
negated-Compares e ConstraintKind.equals_zero s = ground arith
negated-Compares e ConstraintKind.less_than_or_equals_zero s =
    rw (value-negate s e) (neg-lt (value s e))
negated-Compares e ConstraintKind.less_than_zero s = rw (value-negate s e) (neg-le (value s e))
negated-Compares e ConstraintKind.not_zero s = zero-or-not (value s e)

-- A constraint's negation holds exactly where the constraint does not.
pub negate_constraint-Holds :
    (c : LinearConstraint) (s : Variable → ℤ) → Holds s (negate_constraint c) ↔ (¬ Holds s c)
negate_constraint-Holds c s = negated-Compares c.expression c.kind s

value-constant :
    (e : LinearExpression) (s : Variable → ℤ) → is_constant e ≡ true → value s e ≡ e.constant_term
unfolding is_constant value sum
value-constant e s h = constant e.variable_terms e.constant_term h
  where
    constant : (t : VariableTerms) (n : ℤ) → is_nil t ≡ true → sum s t +ℤ n ≡ n
    constant [] n h = omega int_laws
    constant (x ∷ xs) n h = absurd (ground arith)

and-true : (a b : Bool) → (a && b) ≡ true → (a ≡ true) × (b ≡ true)
and-true a b h = ground arith

is_tautology-Holds : (c : LinearConstraint) (s : Variable → ℤ) → is_tautology c ≡ true → Holds s c
unfolding is_tautology
is_tautology-Holds c s h =
    let both = and-true _ _ h in
    rw (value-constant c.expression s (both.0))
      ((compares_iff c.kind c.expression.constant_term).0 (both.1))

is_contradiction-fails :
    (c : LinearConstraint) (s : Variable → ℤ) → is_contradiction c ≡ true → ¬ Holds s c
unfolding is_contradiction is_tautology
is_contradiction-fails c s h holds =
    let both = and-true _ _ h in
    let constant = value-constant c.expression s (both.0) in
    let compared =
      (compares_iff c.kind c.expression.constant_term).1 (subst (Compares c.kind) constant holds) in
    ground arith

-- A constraint that is_tautology accepts holds, and one that is_contradiction accepts does not,
-- whatever the values of the variables.
pub verdict-Holds :
    (c : LinearConstraint) (s : Variable → ℤ)
    → (is_tautology c ≡ true → Holds s c) × (is_contradiction c ≡ true → ¬ Holds s c)
verdict-Holds c s = (is_tautology-Holds c s, is_contradiction-fails c s)

difference-le : (a b : ℤ) → (a -ℤ b ≤ℤ pos 0) ↔ (a ≤ℤ b)
difference-le a b = ground (arith, -ℤ_parts a b)

difference-lt : (a b : ℤ) → (a -ℤ b <ℤ pos 0) ↔ (a <ℤ b)
difference-lt a b = ground (arith, -ℤ_parts a b)

difference-equal : (a b : ℤ) → (a -ℤ b ≡ pos 0) ↔ (a ≡ b)
difference-equal a b = (
  λ e. omega (int_laws, ap (λ n. pos_part n) e, ap (λ n. neg_part n) e),
  λ e. rw e (omega int_laws),
)

-- What the six comparisons of two expressions say of their values.
pub record Comparisons (e f : LinearExpression) (s : Variable → ℤ) : Type 0 where
  pub le-Holds : Holds s (le e f) ↔ (value s e ≤ℤ value s f)
  pub lt-Holds : Holds s (lt e f) ↔ (value s e <ℤ value s f)
  pub ge-Holds : Holds s (ge e f) ↔ (value s f ≤ℤ value s e)
  pub gt-Holds : Holds s (gt e f) ↔ (value s f <ℤ value s e)
  pub equal-Holds : Holds s (equal e f) ↔ (value s e ≡ value s f)
  pub not_equal-Holds : Holds s (not_equal e f) ↔ (value s e ≢ value s f)

-- The constraint that a comparison of two sorted expressions makes holds exactly where their
-- values compare so.
pub operators-Holds :
    (e f : LinearExpression) (s : Variable → ℤ) → IsSorted e → IsSorted f → Comparisons e f s
operators-Holds e f s he hf = record {
  le-Holds = rw (value-subtract s e f hf) (difference-le (value s e) (value s f));
  lt-Holds = rw (value-subtract s e f hf) (difference-lt (value s e) (value s f));
  ge-Holds = rw (value-subtract s f e he) (difference-le (value s f) (value s e));
  gt-Holds = rw (value-subtract s f e he) (difference-lt (value s f) (value s e));
  equal-Holds = rw (value-subtract s e f hf) (difference-equal (value s e) (value s f));
  not_equal-Holds =
      let same = difference-equal (value s e) (value s f) in
      rw (value-subtract s e f hf) (λ h k. h (same.1 k), λ h k. h (same.0 k));
}
