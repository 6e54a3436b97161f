-- ===== src/Cfg/Graph.antt =====
-- `Cfg` of src/cfg/cfg.hpp: the nodes with their parents and children, and the changes of edges that
-- `CfgBuilder` of src/ir/cfg_builder.cpp makes.
pub mod Edges
use prevail.Prelude.{
  ℕ, Bool, true, false, not, ◌||◌, ◌==◌, Option, none, some, List, [], ◌∷◌, if◌then◌else◌,
}
use prevail.Prelude.Int.{pos, negsuc}
use prevail.Prelude.Lists.{length}
use prevail.Prelude.Result.{
  Result, ok, err, ◌>>=◌, ◌>>◌, label_not_found, no_single_child, no_single_parent, failed_assert,
  missing_key,
}
use prevail.Cfg.Label.{Label, label, same_label}
use prevail.Cfg.Order.{LabelVec, contains, insert, erase, find, modify, keys}

abbrev pub entry : Label
entry = label (negsuc 0) (negsuc 0) []

abbrev pub exit : Label
exit = label (pos 2147483647) (negsuc 0) []

pub record Adjacent : Type 0 where
  pub parents : LabelVec
  pub children : LabelVec

abbrev pub no_neighbours : Adjacent
no_neighbours = record { parents = []; children = [] }

pub record Cfg : Type 0 where
  pub neighbours : List (Label × Adjacent)

-- A graph starts with the entry and the exit, in the order of labels.
abbrev pub empty_cfg : Cfg
empty_cfg = record { neighbours = (entry, no_neighbours) ∷ (exit, no_neighbours) ∷ [] }

abbrev pub found {ℓ} : {A : Type ℓ} → Option A → Result A
found none = err label_not_found
found (some a) = ok a

unfoldable pub get_node : Cfg → Label → Result Adjacent
get_node g l = found (find l g.neighbours)

unfoldable pub children_of : Cfg → Label → Result LabelVec
children_of g l = do n ← get_node g l; ok n.children

unfoldable pub parents_of : Cfg → Label → Result LabelVec
parents_of g l = do n ← get_node g l; ok n.parents

abbrev pub labels : Cfg → LabelVec
labels g = keys g.neighbours

abbrev pub size : Cfg → ℕ
size g = length g.neighbours

unfoldable pub in_degree : Cfg → Label → Result ℕ
in_degree g l = do n ← get_node g l; ok (length n.parents)

unfoldable pub out_degree : Cfg → Label → Result ℕ
out_degree g l = do n ← get_node g l; ok (length n.children)

abbrev pub is_some {ℓ} : {A : Type ℓ} → Option A → Bool
is_some none = false
is_some (some a) = true

unfoldable pub has_node : Cfg → Label → Bool
has_node g l = is_some (find l g.neighbours)

-- The only member of a list.
abbrev pub single : LabelVec → Option Label
single (x ∷ []) = some x
single l = none

abbrev pub one_child : Option Label → Result Label
one_child (some l) = ok l
one_child none = err no_single_child

abbrev pub one_parent : Option Label → Result Label
one_parent (some l) = ok l
one_parent none = err no_single_parent

unfoldable pub get_child : Cfg → Label → Result Label
get_child g l = do s ← children_of g l; one_child (single s)

unfoldable pub get_parent : Cfg → Label → Result Label
get_parent g l = do s ← parents_of g l; one_parent (single s)

unfoldable pub num_siblings : Cfg → Label → Result ℕ
num_siblings g l = do p ← get_parent g l; out_degree g p

-- The assignments to the sets of a node.
abbrev pub with_child : Label → Adjacent → Adjacent
with_child b n = record n { children = insert b n.children }

abbrev pub with_parent : Label → Adjacent → Adjacent
with_parent a n = record n { parents = insert a n.parents }

abbrev pub without_child : Label → Adjacent → Adjacent
without_child b n = record n { children = erase b n.children }

abbrev pub without_parent : Label → Adjacent → Adjacent
without_parent a n = record n { parents = erase a n.parents }

abbrev pub without_children : Adjacent → Adjacent
without_children n = record n { children = [] }

unfoldable pub change : Label → (Adjacent → Adjacent) → Cfg → Cfg
change l f g = record { neighbours = modify l f g.neighbours }

abbrev pub require : Bool → Result {0} Unit
require t = if t then ok tt else err failed_assert

-- `neighbours.at`, of which only the exception matters.
abbrev pub present : Cfg → Label → Result {0} Unit
present g l = if has_node g l then ok tt else err missing_key

unfoldable pub add_child : Cfg → Label → Label → Result Cfg
add_child g a b = do
  require (not (same_label b entry))
  require (not (same_label a exit))
  present g a
  present g b
  ok (change b (with_parent a) (change a (with_child b) g))

unfoldable pub remove_child : Cfg → Label → Label → Result Cfg
remove_child g a b = do
  n ← get_node g a
  m ← get_node g b
  ok (change b (without_parent a) (change a (without_child b) g))
