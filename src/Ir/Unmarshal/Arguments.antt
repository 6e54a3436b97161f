-- ===== src/Ir/Unmarshal/Arguments.antt =====
-- The argument registers of the calls that src/ir/unmarshal.cpp makes of helper prototypes.
use prevail.Prelude.{ℕ, suc, ◌≤◌, Bool, true, false, ◌≡◌, refl, List, [], ◌∷◌, arith}
use prevail.Prelude.Int.{ℤ}
use prevail.Prelude.Lists.{All, All-append}
use prevail.Prelude.Result.{
  Result, ok, err, pointer_without_size, unsupported_function, IfOk, yields, throws, IfOk-value,
}
use prevail.Ir.Syntax.{Call}
use prevail.Ir.Platform.{Platform, ArgumentType}
use prevail.Ir.Unmarshal.Calls.{
  make_call, add_arguments, ArgumentRole, role_of, push_single, push_pair, is_const_size,
  is_const_size_or_zero, is_unsupported, by_role, is_any_size,
}

-- From r1 to r5.
abbrev pub IsArgument : ℕ → Type 0
IsArgument r = (1 ≤ r) × (r ≤ 5)

-- The registers of the arguments, and a size in the register after its memory.
pub record Passed (c : Call) : Type 0 where
  pub singles-IsArgument : All (λ s. IsArgument s.reg) c.singles
  pub pairs-IsArgument : All (λ a. IsArgument a.mem × (a.size ≡ suc a.mem) × (a.size ≤ 5)) c.pairs

push_single-Passed :
    (res : Call) (i : ℕ) (arg : ArgumentType) (or_null : Bool)
    → IsArgument i
    → Passed res
    → Passed (push_single res i arg or_null)
unfolding push_single
push_single-Passed res i arg or_null h k = record {
  singles-IsArgument = All-append _ res.singles _ k.singles-IsArgument (h, tt);
  pairs-IsArgument = k.pairs-IsArgument;
}

push_pair-Passed :
    (res : Call) (i : ℕ) (arg next : ArgumentType) (or_null : Bool)
    → IsArgument i
    → suc i ≤ 5
    → Passed res
    → Passed (push_pair res i arg next or_null)
unfolding push_pair
push_pair-Passed res i arg next or_null h h' k = record {
  singles-IsArgument = k.singles-IsArgument;
  pairs-IsArgument = All-append _ res.pairs _ k.pairs-IsArgument ((h, refl, h'), tt);
}

-- The list `args` from i on, which ends with its seventh member, a `dontcare`.
data Ends : ℕ → List ArgumentType → Type 0 where
  last : Ends 6 (ArgumentType.dontcare ∷ [])
  argument :
      (i : ℕ) (arg : ArgumentType) (rest : List ArgumentType)
      → 1 ≤ i
      → Ends (suc i) rest
      → Ends i (arg ∷ rest)

Ends-le : (i : ℕ) (args : List ArgumentType) → Ends i args → (1 ≤ i) × (i ≤ 6)
Ends-le i _ last = (omega arith, omega arith)
Ends-le i _ (argument _ arg rest h k) = (h, omega (arith, (Ends-le (suc i) rest k).1))

by_role-Passed :
    (role : ArgumentRole) (res : Call) (single pair : Bool → Result Call)
    → Passed res
    → ((or_null : Bool) → IfOk Passed (single or_null))
    → ((or_null : Bool) → IfOk Passed (pair or_null))
    → IfOk Passed (by_role role res single pair)
unfolding by_role
by_role-Passed ArgumentRole.unusable res single pair k h h' = throws
by_role-Passed ArgumentRole.done res single pair k h h' = yields k
by_role-Passed ArgumentRole.size_alone res single pair k h h' = throws
by_role-Passed (ArgumentRole.single or_null) res single pair k h h' = h or_null
by_role-Passed (ArgumentRole.pair or_null) res single pair k h h' = h' or_null

when-Passed :
    (t : Bool) (r : Result Call)
    → (t ≡ true → IfOk Passed r)
    → IfOk Passed (elim t [ true ↦ r | false ↦ err pointer_without_size ])
when-Passed true r h = h refl
when-Passed false r h = throws

-- A size is not the end of the list.
after :
    (i : ℕ) (next : ArgumentType) (rest : List ArgumentType)
    → Ends i (next ∷ rest)
    → is_any_size next ≡ true
    → (i ≤ 5) × Ends (suc i) rest
unfolding is_const_size is_const_size_or_zero
after i _ _ last sized = absurd (ground arith)
after i next rest (argument _ _ _ h n) sized = (omega (arith, (Ends-le (suc i) rest n).1), n)

add_arguments-Passed :
    (i : ℕ) (args : List ArgumentType) (res : Call)
    → Ends i args
    → Passed res
    → IfOk Passed (add_arguments i args res)
unfolding add_arguments
add_arguments-Passed i [] res n k = yields k
add_arguments-Passed i (a ∷ []) res n k = yields k
add_arguments-Passed i (arg ∷ next ∷ rest) res (argument _ _ _ h n) k =
    let bound = Ends-le (suc i) (next ∷ rest) n in
    by_role-Passed (role_of arg) res _ _ k
      (λ or_null.
        add_arguments-Passed (suc i) (next ∷ rest) _ n
          (push_single-Passed res i arg or_null (h, omega (arith, bound.1)) k))
      (λ or_null. when-Passed (is_any_size next) _ (λ sized.
        let further = after (suc i) next rest n sized in
        add_arguments-Passed (suc (suc i)) rest _ (further.1)
          (push_pair-Passed res i arg next or_null (h, omega (arith, bound.1)) (further.0) k)))

unless-Passed :
    (t : Bool) (r : Result Call)
    → IfOk Passed r
    → IfOk Passed (elim t [ true ↦ err unsupported_function | false ↦ r ])
unless-Passed true r h = throws
unless-Passed false r h = h

five_arguments :
    {a b c d e : ArgumentType} → Ends 1 (a ∷ b ∷ c ∷ d ∷ e ∷ ArgumentType.dontcare ∷ [])
five_arguments = argument 1 _ _ (omega arith) (
    argument 2 _ _ (omega arith) (
      argument 3 _ _ (omega arith)
        (argument 4 _ _ (omega arith) (argument 5 _ _ (omega arith) last))))

-- The arguments of a call that the decoder makes of a prototype are in the registers r1 to r5,
-- and the size of a memory argument is in the register after it.
pub make_call-Passed : (p : Platform) (i : ℤ) (c : Call) → make_call p i ≡ ok c → Passed c
unfolding make_call
make_call-Passed p i c e = IfOk-value e (
    unless-Passed (is_unsupported (p.get_helper_prototype i).return_type) _ (
      add_arguments-Passed 1 _ _ five_arguments
        (record { singles-IsArgument = tt; pairs-IsArgument = tt })))
