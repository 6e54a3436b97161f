-- ===== src/Cfg/Order/Laws.antt =====
-- What the sets and maps of labels hold after their operations.
use prevail.Prelude.{
  Bool, true, false, not, ◌&&◌, ◌||◌, ◌≡◌, refl, ◌↔◌, none, some, List, [], ◌∷◌, if◌then◌else◌,
  arith,
}
use prevail.Prelude.Int.{eqb_ℤ_iff}
use prevail.Cfg.Label.{Label, Text, same_label, same_text}
use prevail.Cfg.Order.{
  compare_text, compare_label, LabelVec, contains, insert, erase, find, modify, emplace,
}
use Prim.Native.Nat.{Ordering}
use mathlib.Core.Option

pub same_text_iff : (a b : Text) → (same_text a b ≡ true) ↔ (a ≡ b)
same_text_iff [] [] = ground arith
same_text_iff [] (y ∷ ys) = ground arith
same_text_iff (x ∷ xs) [] = ground arith
same_text_iff (x ∷ xs) (y ∷ ys) = ground (arith, same_text_iff xs ys)

-- The members of two labels.
pub same_label_iff : (a b : Label) → (same_label a b ≡ true) ↔ (a ≡ b)
unfolding same_label
same_label_iff a b = ground (
  arith,
  same_text_iff a.stack_frame_prefix b.stack_frame_prefix,
  eqb_ℤ_iff a.from b.from,
  eqb_ℤ_iff a.to b.to,
  same_text_iff a.special_label b.special_label,
)

compare_text-eq : (a b : Text) → compare_text a b ≡ Ordering.eq → a ≡ b
compare_text-eq [] [] h = refl
compare_text-eq [] (y ∷ ys) h = cc
compare_text-eq (x ∷ xs) [] h = cc
compare_text-eq (x ∷ xs) (y ∷ ys) h = ground (arith, compare_text-eq xs ys)

pub compare_label-eq : (a b : Label) → compare_label a b ≡ Ordering.eq → a ≡ b
unfolding compare_label
compare_label-eq a b h = ground (
  arith,
  compare_text-eq a.stack_frame_prefix b.stack_frame_prefix,
  eqb_ℤ_iff a.from b.from,
  eqb_ℤ_iff a.to b.to,
  compare_text-eq a.special_label b.special_label,
)

pub same_label_self : (a : Label) → same_label a a ≡ true
same_label_self a = (same_label_iff a a).1 refl

pub contains-insert :
    (x : Label) (s : LabelVec) (l : Label)
    → contains (insert x s) l ≡ (same_label l x || contains s l)
unfolding contains insert
contains-insert x [] l = refl
contains-insert x (y ∷ s) l =
    elim (compare_label x y)
        as (λ o.
          compare_label x y ≡ o
          → contains
              (elim o [
                | Ordering.lt ↦ x ∷ y ∷ s
                | Ordering.eq ↦ y ∷ s
                | Ordering.gt ↦ y ∷ insert x s
              ])
              l
            ≡ (same_label l x || (same_label l y || contains s l))) [
              | Ordering.lt ↦ λ e. refl
              | Ordering.eq ↦
                  λ e. rw (compare_label-eq x y e) (or_or (same_label l y) (contains s l))
              | Ordering.gt ↦ λ e.
                  rw (contains-insert x s l)
                    (or_swap (same_label l y) (same_label l x) (contains s l))
            ]
      refl
  where
    or_or : (a b : Bool) → (a || b) ≡ (a || (a || b))
    or_or true b = refl
    or_or false b = refl

    or_swap : (a b c : Bool) → (a || (b || c)) ≡ (b || (a || c))
    or_swap true true c = refl
    or_swap true false c = refl
    or_swap false true c = refl
    or_swap false false c = refl

pub contains-erase :
    (x : Label) (s : LabelVec) (l : Label)
    → contains (erase x s) l ≡ (contains s l && not (same_label l x))
unfolding contains erase
contains-erase x [] l = refl
contains-erase x (y ∷ s) l =
    ground (arith, contains-erase x s l, same_label_iff x y, same_label_iff l x, same_label_iff l y)

module _ {A : Type 0} where
  pub find-modify :
      (x : Label) (f : A → A) (m : List (Label × A)) (l : Label)
      → find l (modify x f m) ≡ (if same_label l x then Option.map f (find l m) else find l m)
  unfolding find modify
  find-modify x f [] l = ground arith
  find-modify x f ((k, v) ∷ m) l =
      ground
        (arith, find-modify x f m l, same_label_iff x k, same_label_iff l x, same_label_iff l k)

  pub find-emplace :
      (x : Label) (v : A) (m : List (Label × A)) (l : Label)
      → find x m ≡ none
      → find l (emplace x v m) ≡ (if same_label l x then some v else find l m)
  unfolding find emplace
  find-emplace x v [] l h = refl
  find-emplace x v ((k, w) ∷ m) l h = ground (
    arith,
    find-emplace x v m l,
    same_label_iff x k,
    compare_label-eq x k,
    same_label_iff l x,
    same_label_iff l k,
  )
