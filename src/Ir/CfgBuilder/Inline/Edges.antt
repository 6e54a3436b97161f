-- ===== src/Ir/CfgBuilder/Inline/Edges.antt =====
-- The operations of `CfgBuilder` and the first pass of src/ir/cfg_builder.cpp return, or fail otherwise than
-- for want of fuel.
use prevail.Prelude.{refl, Bool, true, false, not, ◌&&◌, ◌||◌, Option, none, some, [], ◌∷◌}
use prevail.Prelude.Result.{Result, ◌>>◌}
use prevail.Prelude.Fuel.{Fueled, returned, failed, bind-Fueled, if-Fueled}
use prevail.Cfg.Label.{Label, same_label, make_jump}
use prevail.Cfg.Order.{find}
use prevail.Cfg.Graph.{
  Cfg, entry, exit, has_node, found, get_node, parents_of, children_of, get_child, single,
  one_child, require, present, labels, size,
}
use prevail.Cfg.Graph
use prevail.Ir.Syntax.{Instruction, Condition}
use prevail.Ir.Marshal.Sequence.{InstructionSeq}
use prevail.Ir.Program.{Program, instruction_at, insert, insert_jump, add_child, remove_child}
use prevail.Ir.CfgBuilder.{
  has_fall, assume, reverse, require_flow, is_undefined, connect_jump, connect, connect_all,
  connect_sequence, insert_all,
}

found-Fueled : {A : Type 0} (o : Option A) → Fueled (found o)
found-Fueled none = failed refl
found-Fueled (some a) = returned

then-Fueled :
    {A : Type 0} {t : Result {0} Unit} {r : Result A} → Fueled t → Fueled r → Fueled (t >> r)
then-Fueled returned h = h
then-Fueled (failed e) h = failed e

node-Fueled : (g : Cfg) (l : Label) → Fueled (get_node g l)
unfolding get_node
node-Fueled g l = found-Fueled (find l g.neighbours)

pub add_child-Fueled : (p : Program) (a b : Label) → Fueled (add_child p a b)
unfolding add_child Graph.add_child
add_child-Fueled p a b =
    bind-Fueled
      (then-Fueled (if-Fueled (not (same_label b entry)) _ _ returned (failed refl)) (
        then-Fueled (if-Fueled (not (same_label a exit)) _ _ returned (failed refl)) (
          then-Fueled (if-Fueled (has_node p.cfg a) _ _ returned (failed refl))
            (then-Fueled (if-Fueled (has_node p.cfg b) _ _ returned (failed refl)) returned))))
      λ g. returned

pub remove_child-Fueled : (p : Program) (a b : Label) → Fueled (remove_child p a b)
unfolding remove_child Graph.remove_child
remove_child-Fueled p a b =
    bind-Fueled
      (bind-Fueled (node-Fueled p.cfg a) λ n. bind-Fueled (node-Fueled p.cfg b) λ m. returned)
      λ g. returned

pub insert-Fueled : (p : Program) (l : Label) (i : Instruction) → Fueled (insert p l i)
unfolding insert
insert-Fueled p l i = if-Fueled (has_node p.cfg l) _ _ (failed refl) returned

pub instruction-Fueled : (p : Program) (l : Label) → Fueled (instruction_at p l)
unfolding instruction_at
instruction-Fueled p l = found-Fueled (find l p.instructions)

pub parents-Fueled : (g : Cfg) (l : Label) → Fueled (parents_of g l)
unfolding parents_of
parents-Fueled g l = bind-Fueled (node-Fueled g l) λ n. returned

pub children-Fueled : (g : Cfg) (l : Label) → Fueled (children_of g l)
unfolding children_of
children-Fueled g l = bind-Fueled (node-Fueled g l) λ n. returned

pub child-Fueled : (g : Cfg) (l : Label) → Fueled (get_child g l)
unfolding get_child
child-Fueled g l = bind-Fueled (children-Fueled g l) λ s. only (single s)
  where
    only : (o : Option Label) → Fueled (one_child o)
    only none = failed refl
    only (some x) = returned

insert_jump-Fueled :
    (p : Program) (from to : Label) (i : Instruction) → Fueled (insert_jump p from to i)
unfolding insert_jump
insert_jump-Fueled p from to i = if-Fueled (has_node p.cfg (make_jump from to)) _ _ (failed refl) (
    bind-Fueled (insert-Fueled p (make_jump from to) i) λ p1.
      bind-Fueled (add_child-Fueled p1 from (make_jump from to))
        λ p2. add_child-Fueled p2 (make_jump from to) to)

flow_test : (t : Bool) → Fueled (require_flow t)
flow_test true = returned
flow_test false = failed refl

connect_jump-Fueled :
    (p : Program) (l next target : Label) (o : Option Condition)
    → Fueled (connect_jump p l next target o)
unfolding connect_jump
connect_jump-Fueled p l next target none = add_child-Fueled p l target
connect_jump-Fueled p l next target (some c) =
    if-Fueled (same_label target next) _ _ (add_child-Fueled p l next) (
      then-Fueled (flow_test (has_node p.cfg target)) (
        bind-Fueled (insert_jump-Fueled p l target (assume c))
          λ p1. insert_jump-Fueled p1 l next (assume (reverse c))))

connect-Fueled : (p : Program) (l next : Label) (i : Instruction) → Fueled (connect p l next i)
unfolding connect
connect-Fueled p l next (Instruction.undefined n) = returned
connect-Fueled p l next (Instruction.jmp j) = connect_jump-Fueled p l next j.target j.cond
connect-Fueled p l next (Instruction.exit prefix) = add_child-Fueled p l exit
connect-Fueled p l next i = add_child-Fueled p l next

connect_all-Fueled :
    (must_have_exit : Bool) (p : Program) (insts : InstructionSeq)
    → Fueled (connect_all must_have_exit p insts)
unfolding connect_all
connect_all-Fueled t p [] = returned
connect_all-Fueled t p ((l, i) ∷ []) =
    then-Fueled (flow_test (is_undefined i || not (has_fall i && t))) (connect-Fueled p l exit i)
connect_all-Fueled t p ((l, i) ∷ (next, j) ∷ rest) =
    bind-Fueled (connect-Fueled p l next i) λ p1. connect_all-Fueled t p1 ((next, j) ∷ rest)

pub insert_all-Fueled : (p : Program) (insts : InstructionSeq) → Fueled (insert_all p insts)
unfolding insert_all
insert_all-Fueled p [] = returned
insert_all-Fueled p ((l, i) ∷ rest) =
    bind-Fueled (if-Fueled (is_undefined i) _ _ returned (insert-Fueled p l i))
      λ p1. insert_all-Fueled p1 rest

pub connect_sequence-Fueled :
    (must_have_exit : Bool) (p : Program) (insts : InstructionSeq)
    → Fueled (connect_sequence must_have_exit p insts)
unfolding connect_sequence
connect_sequence-Fueled t p [] = failed refl
connect_sequence-Fueled t p ((l, i) ∷ rest) =
    bind-Fueled (add_child-Fueled p entry l) λ p1. connect_all-Fueled t p1 ((l, i) ∷ rest)
