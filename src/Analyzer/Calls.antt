-- ===== src/Analyzer/Calls.antt =====
-- The errors of the calls that the visits of src/fwd_analyzer.cpp make.
use prevail.Ir.Syntax.{Instruction, Assertion}
use prevail.Prelude.{refl, Bool, not, ◌&&◌, Option, none, some, List, [], ◌∷◌}
use prevail.Prelude.Result.{ok}
use prevail.Prelude.Fuel.{Fueled, returned, failed, bind-Fueled, if-Fueled}
use prevail.Cfg.Label.{Label, same_label}
use prevail.Cfg.Order.{LabelVec, find}
use prevail.Cfg.Graph.{Cfg, entry, found, parents_of, get_node}
use prevail.Cfg.Wto.{
  CycleOrLabel, vertex, cycle, WtoPartition, nil, cons, head, is_component_member, in_components,
  heads_in, heads_among, nesting, loop_heads, nests_in,
}
use prevail.Ir.Program.{Program, instruction_at, assertions_at}
use prevail.Analyzer.{
  Domain, InvariantMapPair, Analysis, is_increment, present_or_missing, pair_at, set_pair, set_pre,
  set_error, get_pre, get_post, any_fails, apply, checked, transform_to_post, join_posts,
  join_all_prevs,
}
use prevail.Analyzer.Visits.{visit_node, visit_label, join_outer, initial_invariant}

found-Fueled : {A : Type 0} (r : Option A) → Fueled (found r)
found-Fueled none = failed refl
found-Fueled (some a) = returned

missing-Fueled : {A : Type 0} (r : Option A) → Fueled (present_or_missing r)
missing-Fueled none = failed refl
missing-Fueled (some a) = returned

parents_of-Fueled : (g : Cfg) (l : Label) → Fueled (parents_of g l)
unfolding parents_of get_node
parents_of-Fueled g l = bind-Fueled (found-Fueled (find l g.neighbours)) (λ n. returned)

pub instruction_at-Fueled : (p : Program) (l : Label) → Fueled (instruction_at p l)
unfolding instruction_at
instruction_at-Fueled p l = found-Fueled (find l p.instructions)

pub assertions_at-Fueled : (p : Program) (l : Label) → Fueled (assertions_at p l)
unfolding assertions_at
assertions_at-Fueled p l = found-Fueled (find l p.assertions)

pub head-Fueled : (c : WtoPartition) → Fueled (head c)
unfolding head
head-Fueled nil = failed refl
head-Fueled (cons (vertex l) cs) = returned
head-Fueled (cons (cycle c) cs) = failed refl

mutual
  unfolding is_component_member in_components

  pub component_member-Fueled : (l : Label) (c : CycleOrLabel) → Fueled (is_component_member l c)
  component_member-Fueled l (vertex v) = returned
  component_member-Fueled l (cycle cs) =
      bind-Fueled (head-Fueled cs)
        λ h. if-Fueled (same_label h l) _ _ returned (components-Fueled l cs)

  components-Fueled : (l : Label) (cs : WtoPartition) → Fueled (in_components l cs)
  components-Fueled l nil = returned
  components-Fueled l (cons c cs) =
      bind-Fueled (component_member-Fueled l c)
        λ here. if-Fueled here _ _ returned (components-Fueled l cs)

mutual
  unfolding heads_in heads_among

  heads_in-Fueled :
      (l : Label) (outer : List Label) (c : CycleOrLabel) → Fueled (heads_in l outer c)
  heads_in-Fueled l outer (vertex v) = returned
  heads_in-Fueled l outer (cycle cs) =
      bind-Fueled (head-Fueled cs)
        λ h. if-Fueled (same_label h l) _ _ returned (heads_among-Fueled l (h ∷ outer) cs)

  heads_among-Fueled :
      (l : Label) (outer : List Label) (cs : WtoPartition) → Fueled (heads_among l outer cs)
  heads_among-Fueled l outer nil = returned
  heads_among-Fueled l outer (cons c cs) = bind-Fueled (heads_in-Fueled l outer c) λ r.
      elim r
        as (λ r.
          Fueled {A = Option (List Label)}
            (elim r [ none ↦ heads_among l outer cs | some heads ↦ ok (some heads) ])) [
              | none ↦ heads_among-Fueled l outer cs
              | some heads ↦ returned
            ]

nesting-Fueled : (wto : WtoPartition) (l : Label) → Fueled (nesting wto l)
unfolding nesting
nesting-Fueled wto l = bind-Fueled (heads_among-Fueled l [] wto) (λ r. returned)

pub loop_heads-Fueled : (wto : WtoPartition) → Fueled (loop_heads wto)
unfolding loop_heads
loop_heads-Fueled nil = returned
loop_heads-Fueled (cons (vertex l) cs) = loop_heads-Fueled cs
loop_heads-Fueled (cons (cycle c) cs) =
    bind-Fueled (head-Fueled c) λ h. bind-Fueled (loop_heads-Fueled cs) λ rest. returned

-- The calls of a domain that may throw do not want for fuel.
pub record Answers (d : Domain) : Type 0 where
  pub transform-Fueled : (v : d.Value) (i : Instruction) → Fueled (d.transform v i)
  pub fails-Fueled : (v : d.Value) (a : Assertion) (l : Label) → Fueled (d.fails v a l)

module _ (d : Domain) (answers : Answers d) (prog : Program) where
  pub set_pair-Fueled :
      (s : Analysis d.Value) (l : Label) (f : InvariantMapPair d.Value → InvariantMapPair d.Value)
      → Fueled (set_pair s l f)
  unfolding set_pair pair_at
  set_pair-Fueled s l f = bind-Fueled (missing-Fueled (find l s.invariants)) (λ p. returned)

  get_post-Fueled : (s : Analysis d.Value) (l : Label) → Fueled (get_post s l)
  unfolding get_post pair_at
  get_post-Fueled s l = bind-Fueled (missing-Fueled (find l s.invariants)) (λ p. returned)

  get_pre-Fueled : (s : Analysis d.Value) (l : Label) → Fueled (get_pre s l)
  unfolding get_pre pair_at
  get_pre-Fueled s l = bind-Fueled (missing-Fueled (find l s.invariants)) (λ p. returned)

  apply-Fueled :
      (s : Analysis d.Value) (l : Label) (v : d.Value) (i : Instruction) → Fueled (apply d s l v i)
  unfolding apply
  apply-Fueled s l v i = bind-Fueled (answers.transform-Fueled v i) λ w. set_pair-Fueled s l _

  any_fails-Fueled :
      (v : d.Value) (checks : List Assertion) (l : Label) → Fueled (any_fails d v checks l)
  unfolding any_fails
  any_fails-Fueled v [] l = returned
  any_fails-Fueled v (a ∷ rest) l =
      bind-Fueled (answers.fails-Fueled v a l)
        λ t. if-Fueled t _ _ returned (any_fails-Fueled v rest l)

  pub transform_to_post-Fueled :
      (s : Analysis d.Value) (l : Label) (v : d.Value) → Fueled (transform_to_post d prog s l v)
  unfolding transform_to_post checked set_error pair_at
  transform_to_post-Fueled s l v = bind-Fueled (instruction_at-Fueled prog l) λ i.
      if-Fueled (is_increment i) _ _ (apply-Fueled s l v i) (
        bind-Fueled (missing-Fueled (find l s.invariants)) λ p. if-Fueled p.error _ _ returned (
          bind-Fueled (assertions_at-Fueled prog l) λ checks.
            bind-Fueled (any_fails-Fueled v checks l)
              λ t. if-Fueled t _ _ (set_pair-Fueled _ l _) (apply-Fueled s l v i)))

  join_posts-Fueled :
      (s : Analysis d.Value) (prevs : LabelVec) (res : d.Value) → Fueled (join_posts d s prevs res)
  unfolding join_posts
  join_posts-Fueled s [] res = returned
  join_posts-Fueled s (p ∷ rest) res =
      bind-Fueled (get_post-Fueled s p) λ v. join_posts-Fueled s rest (d.join res v)

  pub join_all_prevs-Fueled :
      (s : Analysis d.Value) (l : Label) → Fueled (join_all_prevs d prog s l)
  unfolding join_all_prevs
  join_all_prevs-Fueled s l =
      if-Fueled (same_label l entry) _ _ (get_pre-Fueled s l)
        (bind-Fueled (parents_of-Fueled prog.cfg l) λ ps. join_posts-Fueled s ps d.bottom)

  pub visit_label-Fueled : (s : Analysis d.Value) (l : Label) → Fueled (visit_label d prog s l)
  unfolding visit_label visit_node set_pre
  visit_label-Fueled s l = if-Fueled (s.skip && not (same_label l entry)) _ _ returned (
      bind-Fueled (join_all_prevs-Fueled _ l)
        λ v. bind-Fueled (set_pair-Fueled _ l _) λ s1. transform_to_post-Fueled s1 l v)

  join_outer-Fueled :
      (wto : WtoPartition) (s : Analysis d.Value) (heads : List Label) (prevs : LabelVec)
      (res : d.Value)
      → Fueled (join_outer d wto s heads prevs res)
  unfolding join_outer
  join_outer-Fueled wto s heads [] res = returned
  join_outer-Fueled wto s heads (p ∷ rest) res = bind-Fueled (nesting-Fueled wto p) λ others.
      bind-Fueled
        (if-Fueled (nests_in others heads) _ _ returned
          (bind-Fueled (get_post-Fueled s p) λ v. returned))
        λ res1. join_outer-Fueled wto s heads rest res1

  pub initial_invariant-Fueled :
      (wto : WtoPartition) (s : Analysis d.Value) (h : Label) (inside : Bool)
      → Fueled (initial_invariant d prog wto s h inside)
  unfolding initial_invariant
  initial_invariant-Fueled wto s h inside = if-Fueled inside _ _ (get_pre-Fueled s entry) (
      bind-Fueled (nesting-Fueled wto h) λ heads.
        bind-Fueled (parents_of-Fueled prog.cfg h) λ ps. join_outer-Fueled wto s heads ps d.bottom)
