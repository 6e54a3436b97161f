-- ===== src/Prelude/Result.antt =====
-- A computation that may throw. The constructors of `Error` are the places where the source calls
-- `CRAB_ERROR`, reads an empty `std::optional`, or throws.
use Prim.Native.Nat.{ℕ}
use mathlib.Core.Path.{◌≡◌, refl, subst}
use mathlib.Core.Bool.{Bool, true, false}
use prevail.Prelude.Tests.{if◌then◌else◌}

pub data Error : Type 0 where
  undefined_sum division_by_zero infinite_quotient infinite_extension : Error
  infinite_narrow : Error
  no_fit invalid_width negative_shift bottom_pair no_value : Error
  not_a_register bad_marshal : Error
  unexpected_opcode empty_program unsupported_function mismatched_size overflow : Error
  pointer_without_size failed_assert : Error
  label_not_found label_exists no_single_child no_single_parent same_label_twice : Error
  invalid_control_flow empty_cycle no_head_label missing_key loop_assertions : Error
  -- `InvalidInstruction`, by the program counter that it holds.
  invalid_instruction : ℕ → Error
  -- The model's own: a recursion was given too little fuel.
  out_of_fuel : Error

pub data Result {ℓ} (A : Type ℓ) : Type ℓ where
  ok : A → Result A
  err : Error → Result A

infixl 5 ◌>>=◌
abbrev pub ◌>>=◌ {ℓ κ} : {A : Type ℓ} {B : Type κ} → Result A → (A → Result B) → Result B
ok a >>= f = f a
err e >>= f = err e

-- A test that may throw, and what follows it.
infixl 5 ◌>>◌
abbrev pub ◌>>◌ {ℓ} : {A : Type ℓ} → Result {0} Unit → Result A → Result A
ok a >> r = r
err e >> r = err e

-- The call returns, and its value satisfies `P`.
pub data Returns {ℓ} {A : Type ℓ} (P : A → Type 0) : Result A → Type ℓ where
  returns : {a : A} → P a → Returns P (ok a)

module _ {ℓ} {A : Type ℓ} where
  pub Returns-value : {P : A → Type 0} {r : Result A} → Returns P r → (a : A) × (r ≡ ok a) × P a
  Returns-value (returns {a = a} h) = (a, refl, h)

  pub Returns-map :
      {P Q : A → Type 0} {r : Result A} → Returns P r → ((a : A) → P a → Q a) → Returns Q r
  Returns-map (returns h) k = returns (k _ h)

  pub Returns-bind {κ} :
      {B : Type κ} {P : A → Type 0} {Q : B → Type 0} {r : Result A} {f : A → Result B}
      → Returns P r
      → ((a : A) → P a → Returns Q (f a))
      → Returns Q (r >>= f)
  Returns-bind (returns h) k = k _ h

-- If the call returns, its value satisfies `P`.
pub data IfOk {ℓ} {A : Type ℓ} (P : A → Type 0) : Result A → Type ℓ where
  yields : {a : A} → P a → IfOk P (ok a)
  throws : {e : Error} → IfOk P (err e)

module _ {ℓ} {A : Type ℓ} where
  pub IfOk-bind {κ} :
      {B : Type κ} {Q : B → Type 0} {f : A → Result B} (r : Result A)
      → ((a : A) → r ≡ ok a → IfOk Q (f a))
      → IfOk Q (r >>= f)
  IfOk-bind (ok a) k = k a refl
  IfOk-bind (err e) k = throws

  -- Two steps in a row.
  pub IfOk-bind_bind {κ μ} :
      {B : Type κ} {C : Type μ} {Q : C → Type 0} (r : Result A) (f : A → Result B)
      (g : B → Result C)
      → ((a : A) → r ≡ ok a → IfOk Q (f a >>= g))
      → IfOk Q (r >>= f >>= g)
  IfOk-bind_bind (ok a) f g k = k a refl
  IfOk-bind_bind (err e) f g k = throws

  -- Whatever a call without a value does before.
  pub IfOk-then : {Q : A → Type 0} (t : Result {0} Unit) {r : Result A} → IfOk Q r → IfOk Q (t >> r)
  IfOk-then (ok u) h = h
  IfOk-then (err e) h = throws

  pub IfOk-value : {P : A → Type 0} {r : Result A} {a : A} → r ≡ ok a → IfOk P r → P a
  IfOk-value e h = held (subst (IfOk _) e h)
    where
      held : {P : A → Type 0} {a : A} → IfOk P (ok a) → P a
      held (yields h) = h

  -- What the first call's value satisfies is known to the second.
  pub IfOk-flow {κ} :
      {B : Type κ} {P : A → Type 0} {Q : B → Type 0} {r : Result A} {f : A → Result B}
      → IfOk P r
      → ((a : A) → P a → IfOk Q (f a))
      → IfOk Q (r >>= f)
  IfOk-flow (yields h) k = k _ h
  IfOk-flow throws k = throws

  pub IfOk-map : {P Q : A → Type 0} {r : Result A} → IfOk P r → ((a : A) → P a → Q a) → IfOk Q r
  IfOk-map (yields h) k = yields (k _ h)
  IfOk-map throws k = throws

  -- Either arm of a test.
  pub IfOk-if :
      {P : A → Type 0} (t : Bool) {r s : Result A}
      → (t ≡ true → IfOk P r)
      → (t ≡ false → IfOk P s)
      → IfOk P (if t then r else s)
  IfOk-if true h k = h refl
  IfOk-if false h k = k refl
