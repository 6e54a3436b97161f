-- ===== src/Ir/Program.antt =====
-- `Program` of src/ir/program.hpp, and the operations of `CfgBuilder` of src/ir/cfg_builder.cpp.
pub mod Edits
use prevail.Prelude.{Bool, true, false, not, Option, none, some, List, [], ◌∷◌, if◌then◌else◌}
use prevail.Prelude.Int.{pos}
use prevail.Prelude.Result.{
  Result, ok, err, ◌>>=◌, ◌>>◌, label_not_found, label_exists, same_label_twice,
}
use prevail.Cfg.Label.{Label, same_label, make_jump}
use prevail.Cfg.Order.{LabelVec, find, modify, emplace}
use prevail.Cfg.Graph.{
  Cfg, entry, exit, empty_cfg, no_neighbours, has_node, found, get_node, change, without_parent,
  without_children,
}
use prevail.Cfg.Graph
use prevail.Ir.Syntax.{Instruction, Assertion}

pub record Program : Type 0 where
  pub instructions : List (Label × Instruction)
  pub assertions : List (Label × List Assertion)
  pub cfg : Cfg

abbrev pub empty_program : Program
empty_program = record {
  instructions =
      (entry, Instruction.undefined (pos 0)) ∷ (exit, Instruction.undefined (pos 0)) ∷ [];
  assertions = (entry, []) ∷ (exit, []) ∷ [];
  cfg = empty_cfg;
}

unfoldable pub instruction_at : Program → Label → Result Instruction
instruction_at p l = found (find l p.instructions)

unfoldable pub assertions_at : Program → Label → Result (List Assertion)
assertions_at p l = found (find l p.assertions)

unfoldable pub with_cfg : Program → Cfg → Program
with_cfg p g = record p { cfg = g }

unfoldable pub add_child : Program → Label → Label → Result Program
add_child p a b = do g ← Graph.add_child p.cfg a b; ok (with_cfg p g)

unfoldable pub remove_child : Program → Label → Label → Result Program
remove_child p a b = do g ← Graph.remove_child p.cfg a b; ok (with_cfg p g)

unfoldable pub insert : Program → Label → Instruction → Result Program
insert p l ins =
    if has_node p.cfg l
    then err label_exists
    else ok (record p {
      cfg = record { neighbours = emplace l no_neighbours p.cfg.neighbours };
      instructions = emplace l ins p.instructions;
    })

-- The label that it returns as well is not used by its callers.
unfoldable pub insert_jump : Program → Label → Label → Instruction → Result Program
insert_jump p from to ins =
    let jump_label = make_jump from to in
    if has_node p.cfg jump_label then err label_exists else (do
      p1 ← insert p jump_label ins
      p2 ← add_child p1 from jump_label
      add_child p2 jump_label to)

-- The first loop of `insert_after`: a node is no longer a parent.
unfoldable pub erase_parent : Label → LabelVec → Cfg → Result Cfg
erase_parent prev [] g = ok g
erase_parent prev (next ∷ rest) g = do
  n ← get_node g next
  erase_parent prev rest (change next (without_parent prev) g)

-- The second loop: an edge to the new node, and one from it to each child.
unfoldable pub link_children : Label → Label → LabelVec → Program → Result Program
link_children prev new [] p = ok p
link_children prev new (next ∷ rest) p = do
  p1 ← add_child p prev new
  p2 ← add_child p1 new next
  link_children prev new rest p2

unfoldable pub insert_after : Program → Label → Label → Instruction → Result Program
insert_after p prev new ins = if same_label prev new then err same_label_twice else (do
  n ← get_node p.cfg prev
  g ← erase_parent prev n.children (change prev without_children p.cfg)
  p1 ← insert (with_cfg p g) new ins
  link_children prev new n.children p1)

-- `insert_or_assign`.
unfoldable pub set_assertions : Program → Label → List Assertion → Result Program
set_assertions p l checks =
    if has_node p.cfg l
    then ok (record p { assertions = modify l (λ _. checks) (emplace l checks p.assertions) })
    else err label_not_found
