-- ===== src/Prelude/Lists.antt =====
-- Lists under a predicate, and lists that leave out members of others.
use Prim.Native.Nat.{ℕ, zero, suc, ◌+◌}
use mathlib.Core.Option.{Option, none, some}
use mathlib.Core.Path.{◌≡◌, refl, ap}
use mathlib.Core.List.{List, [], ◌∷◌, ◌++◌, Sublistᴰ}
use mathlib.Core.List.Sublistᴰ.{slnil, cons, cons-cons}
use native.Mathlib.Omega.{arith}

abbrev pub All {ℓ κ} : {A : Type ℓ} → (A → Type κ) → List A → Type κ
All P [] = Unit
All P (x ∷ xs) = P x × All P xs

abbrev pub length {ℓ} : {A : Type ℓ} → List A → ℕ
length [] = 0
length (x ∷ xs) = suc (length xs)

module _ {ℓ} {A : Type ℓ} where
  pub All-append {κ} : (P : A → Type κ) (xs ys : List A) → All P xs → All P ys → All P (xs ++ ys)
  All-append P [] ys hx hy = hy
  All-append P (x ∷ xs) ys hx hy = (hx.0, All-append P xs ys (hx.1) hy)

  pub length-append : (xs ys : List A) → length (xs ++ ys) ≡ length xs + length ys
  length-append [] ys = omega arith
  length-append (x ∷ xs) ys = omega (arith, length-append xs ys)

  pub append_assoc : (xs ys zs : List A) → (xs ++ ys) ++ zs ≡ xs ++ (ys ++ zs)
  append_assoc [] ys zs = refl
  append_assoc (x ∷ xs) ys zs = ap (λ ws. x ∷ ws) (append_assoc xs ys zs)

  pub nil-Sublistᴰ : (l : List A) → Sublistᴰ [] l
  nil-Sublistᴰ [] = slnil
  nil-Sublistᴰ (x ∷ xs) = cons (nil-Sublistᴰ xs)

  pub append-Sublistᴰ :
      {a b c d : List A} → Sublistᴰ a b → Sublistᴰ c d → Sublistᴰ (a ++ c) (b ++ d)
  append-Sublistᴰ slnil s = s
  append-Sublistᴰ (cons r) s = cons (append-Sublistᴰ r s)
  append-Sublistᴰ (cons-cons e r) s = cons-cons e (append-Sublistᴰ r s)

  pub Sublistᴰ-same : (l : List A) → Sublistᴰ l l
  Sublistᴰ-same [] = slnil
  Sublistᴰ-same (x ∷ xs) = cons-cons refl (Sublistᴰ-same xs)

-- The member at a position, if the list is that long.
unfoldable pub get_elem? {ℓ} : {A : Type ℓ} → List A → ℕ → Option A
get_elem? [] n = none
get_elem? (x ∷ xs) zero = some x
get_elem? (x ∷ xs) (suc n) = get_elem? xs n

-- The member after a prefix stands at the prefix's length.
pub get_elem?-length {ℓ} :
    {A : Type ℓ} (xs : List A) (y : A) (ys : List A) → get_elem? (xs ++ y ∷ ys) (length xs) ≡ some y
unfolding get_elem?
get_elem?-length [] y ys = refl
get_elem?-length (x ∷ xs) y ys = get_elem?-length xs y ys
