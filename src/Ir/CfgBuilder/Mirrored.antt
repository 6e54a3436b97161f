-- ===== src/Ir/CfgBuilder/Mirrored.antt =====
-- The graph that `instruction_seq_to_cfg` of src/ir/cfg_builder.cpp makes, whatever the sequence.
use prevail.Prelude.{
  ◌≡◌, refl, sym, ◌∙◌, Bool, true, false, not, ◌&&◌, ◌||◌, Option, none, some, [], ◌∷◌,
  if◌then◌else◌, arith,
}
use prevail.Prelude.Result.{
  Result, Error, ok, err, ◌>>◌, IfOk, yields, throws, IfOk-then, IfOk-if, IfOk-flow,
}
use prevail.Cfg.Label.{Label, same_label, make_jump}
use prevail.Cfg.Order.{contains, find}
use prevail.Cfg.Order.Laws.{same_label_iff}
use prevail.Cfg.Graph.{
  Adjacent, Cfg, entry, exit, empty_cfg, no_neighbours, has_node, is_some, change, with_child,
  with_parent, require, present,
}
use prevail.Cfg.Graph
use prevail.Cfg.Graph.Edges.{
  Represents, child_in, parent_in, with_child-Adjacency, with_parent-Adjacency, emplace-Adjacency,
}
use prevail.Ir.Syntax.{Instruction, Condition}
use prevail.Ir.Marshal.Sequence.{InstructionSeq}
use prevail.Ir.Program.{Program, empty_program, with_cfg, insert, add_child, insert_jump}
use prevail.Ir.CfgBuilder.{
  connect_jump, connect, connect_all, connect_sequence, insert_all, first_pass, assume, reverse,
  require_flow, is_undefined, has_fall,
}

-- Children and parents are one relation, the entry has no parents and the exit no children.
pub record IsMirrored (g : Cfg) : Type 0 where
  pub mirrored :
      (x y : Label) → parent_in (find y g.neighbours) x ≡ child_in (find x g.neighbours) y
  pub into_entry : (x : Label) → child_in (find x g.neighbours) entry ≡ false
  pub out_of_exit : (y : Label) → child_in (find exit g.neighbours) y ≡ false

pub represents :
    (g : Cfg) → IsMirrored g → Represents g (has_node g) (λ x y. child_in (find x g.neighbours) y)
represents g m = record {
  nodes = λ l. refl;
  children = λ x y. refl;
  parents = λ x y. m.mirrored x y;
}

apart : (a b x y : Label) → same_label a b ≡ false → same_label b a ≡ false
apart a b x y h = ground (arith, same_label_iff a b, same_label_iff b a)

-- An edge between nodes keeps it.
linked :
    (g : Cfg) (a b : Label)
    → IsMirrored g
    → has_node g a ≡ true
    → has_node g b ≡ true
    → same_label a exit ≡ false
    → same_label b entry ≡ false
    → IsMirrored (change b (with_parent a) (change a (with_child b) g))
linked g a b m va vb na nb =
    let r = with_parent-Adjacency (with_child-Adjacency (represents g m) a b va) a b vb in
    record {
      mirrored = λ x y. r.parents x y ∙ sym (r.children x y);
      into_entry = λ x.
          r.children x entry
          ∙ ground (arith, m.into_entry x, same_label_iff entry b, same_label_iff b entry);
      out_of_exit = λ y.
          r.children exit y
          ∙ ground (arith, m.out_of_exit y, same_label_iff exit a, same_label_iff a exit);
    }

-- What follows a test runs if it holds.
after_test :
    {A : Type 0} {Q : A → Type 0} (t : Bool) (e : Error) {r : Result A}
    → (t ≡ true → IfOk Q r)
    → IfOk Q ((if t then ok tt else err e) >> r)
after_test true e h = h refl
after_test false e h = throws

is_not : (t : Bool) → not t ≡ true → t ≡ false
is_not t h = ground arith

edge_kept : (g : Cfg) (a b : Label) → IsMirrored g → IfOk IsMirrored (Graph.add_child g a b)
unfolding Graph.add_child
edge_kept g a b m = after_test (not (same_label b entry)) _ λ e.
    after_test (not (same_label a exit)) _ λ f.
      after_test (has_node g a) _
        λ h. after_test (has_node g b) _ λ k. yields (linked g a b m h k (is_not _ f) (is_not _ e))

-- Programs whose graph is so.
abbrev pub IsLinked : Program → Type 0
IsLinked p = IsMirrored p.cfg

pub add_child-IsLinked : (p : Program) (a b : Label) → IsLinked p → IfOk IsLinked (add_child p a b)
unfolding add_child with_cfg
add_child-IsLinked p a b m = IfOk-flow (edge_kept p.cfg a b m) λ g h. yields h

pub insert-IsLinked :
    (p : Program) (l : Label) (i : Instruction) → IsLinked p → IfOk IsLinked (insert p l i)
unfolding insert
insert-IsLinked p l i m =
    IfOk-if (has_node p.cfg l) (λ h. throws)
      λ h.
        let r = emplace-Adjacency (represents p.cfg m) l h in
        yields (record {
          mirrored = λ x y. r.parents x y ∙ sym (r.children x y);
          into_entry = λ x. r.children x entry ∙ m.into_entry x;
          out_of_exit = λ y. r.children exit y ∙ m.out_of_exit y;
        })

insert_jump-IsLinked :
    (p : Program) (from to : Label) (i : Instruction)
    → IsLinked p
    → IfOk IsLinked (insert_jump p from to i)
unfolding insert_jump
insert_jump-IsLinked p from to i m =
    IfOk-if (has_node p.cfg (make_jump from to)) (λ h. throws)
      λ h. IfOk-flow (insert-IsLinked p (make_jump from to) i m) λ p1 m1.
        IfOk-flow (add_child-IsLinked p1 from (make_jump from to) m1)
          λ p2 m2. add_child-IsLinked p2 (make_jump from to) to m2

connect_jump-IsLinked :
    (p : Program) (l next target : Label) (o : Option Condition)
    → IsLinked p
    → IfOk IsLinked (connect_jump p l next target o)
unfolding connect_jump
connect_jump-IsLinked p l next target none m = add_child-IsLinked p l target m
connect_jump-IsLinked p l next target (some c) m =
    IfOk-if (same_label target next) (λ h. add_child-IsLinked p l next m)
      λ h. IfOk-then (require_flow (has_node p.cfg target)) (
        IfOk-flow (insert_jump-IsLinked p l target (assume c) m)
          λ p1 m1. insert_jump-IsLinked p1 l next (assume (reverse c)) m1)

connect-IsLinked :
    (p : Program) (l next : Label) (i : Instruction)
    → IsLinked p
    → IfOk IsLinked (connect p l next i)
unfolding connect
connect-IsLinked p l next (Instruction.undefined n) m = yields m
connect-IsLinked p l next (Instruction.jmp j) m = connect_jump-IsLinked p l next j.target j.cond m
connect-IsLinked p l next (Instruction.exit prefix) m = add_child-IsLinked p l exit m
connect-IsLinked p l next i m = add_child-IsLinked p l next m

connect_all-IsLinked :
    (must_have_exit : Bool) (p : Program) (insts : InstructionSeq)
    → IsLinked p
    → IfOk IsLinked (connect_all must_have_exit p insts)
unfolding connect_all
connect_all-IsLinked t p [] m = yields m
connect_all-IsLinked t p ((l, i) ∷ []) m =
    IfOk-then (require_flow (is_undefined i || not (has_fall i && t)))
      (connect-IsLinked p l exit i m)
connect_all-IsLinked t p ((l, i) ∷ (next, j) ∷ rest) m =
    IfOk-flow (connect-IsLinked p l next i m)
      λ p1 m1. connect_all-IsLinked t p1 ((next, j) ∷ rest) m1

insert_all-IsLinked :
    (p : Program) (insts : InstructionSeq) → IsLinked p → IfOk IsLinked (insert_all p insts)
unfolding insert_all
insert_all-IsLinked p [] m = yields m
insert_all-IsLinked p ((l, i) ∷ rest) m =
    IfOk-flow (IfOk-if (is_undefined i) (λ h. yields m) (λ h. insert-IsLinked p l i m))
      λ p1 m1. insert_all-IsLinked p1 rest m1

no_edges_in :
    (s t : Bool) (x : Label)
    → parent_in (if s then some no_neighbours else if t then some no_neighbours else none) x ≡ false
unfolding contains
no_edges_in true t x = refl
no_edges_in false true x = refl
no_edges_in false false x = refl

no_edges_out :
    (s t : Bool) (y : Label)
    → child_in (if s then some no_neighbours else if t then some no_neighbours else none) y ≡ false
unfolding contains
no_edges_out true t y = refl
no_edges_out false true y = refl
no_edges_out false false y = refl

empty_program-IsLinked : IsLinked empty_program
unfolding find contains
empty_program-IsLinked = record {
  mirrored = λ x y. no_edges_in _ _ x ∙ sym (no_edges_out _ _ y);
  into_entry = λ x. no_edges_out _ _ entry;
  out_of_exit = λ y. no_edges_out _ _ y;
}

connect_sequence-IsLinked :
    (must_have_exit : Bool) (p : Program) (insts : InstructionSeq)
    → IsLinked p
    → IfOk IsLinked (connect_sequence must_have_exit p insts)
unfolding connect_sequence
connect_sequence-IsLinked t p [] m = throws
connect_sequence-IsLinked t p ((l, i) ∷ rest) m =
    IfOk-flow (add_child-IsLinked p entry l m) λ p1 m1. connect_all-IsLinked t p1 ((l, i) ∷ rest) m1

-- Whatever the sequence of instructions, if the first pass over it returns a program, then in its
-- graph a node is a child of another exactly where that one is its parent, the entry is no child
-- and the exit has none.
pub first_pass-IsMirrored :
    (insts : InstructionSeq) (must_have_exit : Bool)
    → IfOk (λ p. IsMirrored p.cfg) (first_pass insts must_have_exit)
unfolding first_pass
first_pass-IsMirrored insts t =
    IfOk-flow (insert_all-IsLinked empty_program insts empty_program-IsLinked)
      λ p m. connect_sequence-IsLinked t p insts m
