-- ===== src/Ir/CfgBuilder/Inline/Count.antt =====
-- Counts over the labels of a graph, and the labels after the changes of src/ir/cfg_builder.cpp.
use prevail.Prelude.{
  ℕ, suc, ◌<◌, ◌≤◌, ◌≡◌, refl, ap, Bool, true, false, inl, inr, Bool-cases, List, [], ◌∷◌,
  if◌then◌else◌, arith,
}
use Prim.Native.Nat.{Ordering}
use prevail.Prelude.Lists.{length}
use prevail.Cfg.Label.{Label, same_label}
use prevail.Cfg.Order.{LabelVec, contains, compare_label, find, modify, emplace, keys}
use prevail.Cfg.Order
use prevail.Cfg.Order.Laws.{same_label_iff}
use prevail.Cfg.Graph.{Adjacent, is_some}

abbrev pub count : (Label → Bool) → LabelVec → ℕ
count t [] = 0
count t (x ∷ s) = let rest = count t s in if t x then suc rest else rest

pub count-insert :
    (t : Label → Bool) (l : Label) (s : LabelVec)
    → t l ≡ false
    → count t (Order.insert l s) ≡ count t s
unfolding Order.insert
count-insert t l [] h = ground arith
count-insert t l (x ∷ s) h = placed (compare_label l x) (count-insert t l s h)
  where
    placed :
        (o : Ordering)
        → count t (Order.insert l s) ≡ count t s
        → count t (elim o [
          | Ordering.lt ↦ l ∷ x ∷ s
          | Ordering.eq ↦ x ∷ s
          | Ordering.gt ↦ x ∷ Order.insert l s
        ])
          ≡ count t (x ∷ s)
    placed Ordering.lt e = ground (arith, h)
    placed Ordering.eq e = refl
    placed Ordering.gt e = ap (λ n. if t x then suc n else n) e

module _ (t u : Label → Bool) (imp : (x : Label) → t x ≡ true → u x ≡ true) where
  count_le : (s : LabelVec) → count t s ≤ count u s
  count_le [] = omega arith
  count_le (x ∷ s) = ground (arith, imp x, count_le s)

  pub count_lt :
      (s : LabelVec) (m : Label)
      → contains s m ≡ true
      → t m ≡ false
      → u m ≡ true
      → count t s < count u s
  unfolding contains
  count_lt [] m h f g = cc
  count_lt (x ∷ s) m h f g = elim (Bool-cases (same_label m x)) [
    | inl e ↦ let q = (same_label_iff m x).0 e in ground (arith, ap t q, ap u q, f, g, count_le s)
    | inr e ↦ let below = count_lt s m (ground (arith, h, e)) f g in ground (arith, imp x, below)
  ]

pub count_le_length :
    (t : Label → Bool) (ns : List (Label × Adjacent)) → count t (keys ns) ≤ length ns
count_le_length t [] = omega arith
count_le_length t ((k, v) ∷ ns) = ground (arith, count_le_length t ns)

pub keys-modify :
    (l : Label) (f : Adjacent → Adjacent) (ns : List (Label × Adjacent))
    → keys (modify l f ns) ≡ keys ns
unfolding modify
keys-modify l f [] = refl
keys-modify l f ((k, v) ∷ ns) = ap (λ s. k ∷ s) (keys-modify l f ns)

pub keys-emplace :
    (l : Label) (v : Adjacent) (ns : List (Label × Adjacent))
    → keys (emplace l v ns) ≡ Order.insert l (keys ns)
unfolding emplace Order.insert
keys-emplace l v [] = refl
keys-emplace l v ((k, w) ∷ ns) = placed (compare_label l k) (keys-emplace l v ns)
  where
    placed :
        (o : Ordering)
        → keys (emplace l v ns) ≡ Order.insert l (keys ns)
        → keys (elim o [
          | Ordering.lt ↦ (l, v) ∷ (k, w) ∷ ns
          | Ordering.eq ↦ (k, w) ∷ ns
          | Ordering.gt ↦ (k, w) ∷ emplace l v ns
        ])
          ≡ elim o [
            | Ordering.lt ↦ l ∷ k ∷ keys ns
            | Ordering.eq ↦ k ∷ keys ns
            | Ordering.gt ↦ k ∷ Order.insert l (keys ns)
          ]
    placed Ordering.lt e = refl
    placed Ordering.eq e = refl
    placed Ordering.gt e = ap (λ s. k ∷ s) e

pub has_node_iff :
    (ns : List (Label × Adjacent)) (l : Label) → is_some (find l ns) ≡ contains (keys ns) l
unfolding find contains
has_node_iff [] l = refl
has_node_iff ((k, v) ∷ ns) l = ground (arith, has_node_iff ns l)
