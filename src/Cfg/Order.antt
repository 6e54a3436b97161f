-- ===== src/Cfg/Order.antt =====
-- The order of labels, `operator<=>` of src/cfg/label.hpp, and the `std::set` and `std::map` that it
-- sorts: lists in its order, without repetition.
pub mod Laws
use prevail.Prelude.{ℕ, Bool, true, false, ◌||◌, Option, none, some, List, [], ◌∷◌, if◌then◌else◌}
use prevail.Prelude.Int.{ℤ, ltb_ℤ, eqb_ℤ}
use prevail.Cfg.Label.{Label, Text, same_label}
use Prim.Native.Nat.{compare, Ordering}

-- The first comparison that is not of equals decides.
abbrev pub or_else : Ordering → Ordering → Ordering
or_else Ordering.eq later = later
or_else Ordering.lt later = Ordering.lt
or_else Ordering.gt later = Ordering.gt

abbrev pub compare_text : Text → Text → Ordering
compare_text [] [] = Ordering.eq
compare_text [] (y ∷ ys) = Ordering.lt
compare_text (x ∷ xs) [] = Ordering.gt
compare_text (x ∷ xs) (y ∷ ys) = or_else (compare x y) (compare_text xs ys)

abbrev pub compare_ℤ : ℤ → ℤ → Ordering
compare_ℤ a b = if eqb_ℤ a b then Ordering.eq else if ltb_ℤ a b then Ordering.lt else Ordering.gt

unfoldable pub compare_label : Label → Label → Ordering
compare_label a b = or_else (compare_text a.stack_frame_prefix b.stack_frame_prefix) (
    or_else (compare_ℤ a.from b.from)
      (or_else (compare_ℤ a.to b.to) (compare_text a.special_label b.special_label)))

abbrev pub LabelVec : Type 0
LabelVec = List Label

unfoldable pub contains : LabelVec → Label → Bool
contains [] l = false
contains (x ∷ s) l = same_label l x || contains s l

unfoldable pub insert : Label → LabelVec → LabelVec
insert l [] = l ∷ []
insert l (x ∷ s) = elim (compare_label l x) [
  | Ordering.lt ↦ l ∷ x ∷ s
  | Ordering.eq ↦ x ∷ s
  | Ordering.gt ↦ x ∷ insert l s
]

unfoldable pub erase : Label → LabelVec → LabelVec
erase l [] = []
erase l (x ∷ s) = if same_label l x then erase l s else x ∷ erase l s

-- A `std::map` with labels for keys.
module _ {A : Type 0} where
  unfoldable pub find : Label → List (Label × A) → Option A
  find l [] = none
  find l ((k, v) ∷ m) = if same_label l k then some v else find l m

  -- An assignment to the value of a key, which changes nothing if the key is missing.
  unfoldable pub modify : Label → (A → A) → List (Label × A) → List (Label × A)
  modify l f [] = []
  modify l f ((k, v) ∷ m) = (k, if same_label l k then f v else v) ∷ modify l f m

  -- `emplace`: the first value of a key stays.
  unfoldable pub emplace : Label → A → List (Label × A) → List (Label × A)
  emplace l v [] = (l, v) ∷ []
  emplace l v ((k, w) ∷ m) = elim (compare_label l k) [
    | Ordering.lt ↦ (l, v) ∷ (k, w) ∷ m
    | Ordering.eq ↦ (k, w) ∷ m
    | Ordering.gt ↦ (k, w) ∷ emplace l v m
  ]

  abbrev pub keys : List (Label × A) → LabelVec
  keys [] = []
  keys ((k, v) ∷ m) = k ∷ keys m
