-- ===== src/Cfg/Wto.antt =====
-- The components of a weak topological order, of src/cfg/wto.hpp and src/cfg/wto.cpp, in the order in
-- which their iterators visit them. What the tables of containing cycles hold is read off the tree.
use prevail.Prelude.{Bool, true, false, ◌&&◌, Option, none, some, List, [], ◌∷◌, leb, if◌then◌else◌}
use prevail.Prelude.Lists.{length}
use prevail.Prelude.Result.{Result, ok, err, ◌>>=◌, empty_cycle, no_head_label}
use prevail.Cfg.Label.{Label, same_label}
use mathlib.Core.List.{reverse}

mutual
  pub data CycleOrLabel : Type 0 where
    vertex : Label → CycleOrLabel
    cycle : WtoPartition → CycleOrLabel

  pub data WtoPartition : Type 0 where
    nil : WtoPartition
    cons : CycleOrLabel → WtoPartition → WtoPartition

-- The first component of a cycle, which must be a label.
unfoldable pub head : WtoPartition → Result Label
head nil = err empty_cycle
head (cons (vertex l) cs) = ok l
head (cons (cycle c) cs) = err no_head_label

unfoldable mutual
  pub is_component_member : Label → CycleOrLabel → Result Bool
  is_component_member l (vertex v) = ok (same_label v l)
  is_component_member l (cycle cs) =
      let rest = in_components l cs in do h ← head cs; if same_label h l then ok true else rest

  pub in_components : Label → WtoPartition → Result Bool
  in_components l nil = ok false
  in_components l (cons c cs) =
      let rest = in_components l cs in
      do here ← is_component_member l c; if here then ok true else rest

-- The heads of the cycles that hold a label, from the innermost to the outermost, without that of
-- the cycle that the label is the head of: first in a component, then among components.
unfoldable mutual
  pub heads_in : Label → List Label → CycleOrLabel → Result (Option (List Label))
  heads_in l outer (vertex v) = ok (if same_label v l then some outer else none)
  heads_in l outer (cycle cs) = do
    h ← head cs
    (let rest = heads_among l (h ∷ outer) cs in if same_label h l then ok (some outer) else rest)

  pub heads_among : Label → List Label → WtoPartition → Result (Option (List Label))
  heads_among l outer nil = ok none
  heads_among l outer (cons c cs) =
      let rest = heads_among l outer cs in
      do r ← heads_in l outer c; elim r [ none ↦ rest | some heads ↦ ok (some heads) ]

abbrev or_none : Option (List Label) → List Label
or_none none = []
or_none (some heads) = heads

unfoldable pub nesting : WtoPartition → Label → Result (List Label)
nesting wto l = do r ← heads_among l [] wto; ok (or_none r)

-- The entries are compared from the outermost on.
unfoldable pub starts_with : List Label → List Label → Bool
starts_with xs [] = true
starts_with [] (y ∷ ys) = false
starts_with (x ∷ xs) (y ∷ ys) = same_label x y && starts_with xs ys

-- `WtoNesting::operator>`.
unfoldable pub nests_in : List Label → List Label → Bool
nests_in heads others =
    if leb (length heads) (length others)
    then false
    else starts_with (reverse heads) (reverse others)

-- The heads that `for_each_loop_head` visits: those of the cycles that no cycle holds.
unfoldable pub loop_heads : WtoPartition → Result (List Label)
loop_heads nil = ok []
loop_heads (cons (vertex l) cs) = loop_heads cs
loop_heads (cons (cycle c) cs) = do h ← head c; rest ← loop_heads cs; ok (h ∷ rest)
