-- ===== src/Analyzer.antt =====
-- `InterleavedFwdFixpointIterator` of src/fwd_analyzer.cpp, over any abstract domain: the record
-- `Domain` names what it calls of `EbpfDomain`, `ebpf_domain_transform` and `ebpf_domain_check`; its
-- `join` is also the value that `operator|=` assigns. The
-- weak topological order is a parameter. Here the states at the nodes; the visits are in the child
-- Visits.
pub mod Visits
pub mod Semantics
pub mod Pairs
pub mod Nodes
pub mod Flows
pub mod Rounds
pub mod Loops
pub mod Components
pub mod Sound
pub mod Run
pub mod Counter
pub mod Calls
pub mod Ends
pub mod Order
use prevail.Prelude.{
  ℕ, zero, suc, Bool, true, false, not, ◌||◌, ◌&&◌, ◌==◌, ltb, Option, none, some, List, [], ◌∷◌,
  if◌then◌else◌,
}
use prevail.Prelude.Result.{Result, ok, err, ◌>>=◌, ◌>>◌, missing_key, loop_assertions, out_of_fuel}
use prevail.Cfg.Label.{Label, same_label}
use prevail.Cfg.Order.{LabelVec, find, modify, keys}
use prevail.Cfg.Graph.{entry, parents_of, labels}
use prevail.Cfg.Wto.{
  CycleOrLabel, vertex, cycle, WtoPartition, nil, cons, head, is_component_member, nesting,
  nests_in, loop_heads,
}
use prevail.Ir.Syntax.{Instruction, Assertion}
use prevail.Ir.Program.{Program, instruction_at, assertions_at}

pub record Domain : Type 1 where
  pub Value : Type 0
  pub bottom : Value
  pub is_bottom : Value → Bool
  pub le : Value → Value → Bool
  pub join : Value → Value → Value
  pub meet : Value → Value → Value
  pub widen : Value → Value → Bool → Value
  pub narrow : Value → Value → Value
  pub initialize_loop_counter : Value → Label → Value
  pub transform : Value → Instruction → Result Value
  -- `ebpf_domain_check` finds an error.
  pub fails : Value → Assertion → Label → Result Bool

-- `InvariantMapPair`; of the error, whether there is one.
pub record InvariantMapPair (V : Type 0) : Type 0 where
  pub pre : V
  pub error : Bool
  pub post : V

-- `AnalysisResult` with the iterator's own flag `_skip`.
pub record Analysis (V : Type 0) : Type 0 where
  pub invariants : List (Label × InvariantMapPair V)
  pub failed : Bool
  pub skip : Bool

abbrev pub is_increment : Instruction → Bool
is_increment (Instruction.increment_loop_counter l) = true
is_increment i = false

abbrev pub present_or_missing {ℓ} : {A : Type ℓ} → Option A → Result A
present_or_missing none = err missing_key
present_or_missing (some a) = ok a

module _ {V : Type 0} where
  -- `invariants.at`.
  unfoldable pub pair_at : Analysis V → Label → Result (InvariantMapPair V)
  pair_at s l = present_or_missing (find l s.invariants)

  abbrev pub with_pre : V → InvariantMapPair V → InvariantMapPair V
  with_pre v p = record p { pre = v }

  abbrev pub with_post : V → InvariantMapPair V → InvariantMapPair V
  with_post v p = record p { post = v }

  abbrev pub with_error : InvariantMapPair V → InvariantMapPair V
  with_error p = record p { error = true }

  unfoldable pub set_pair :
      Analysis V → Label → (InvariantMapPair V → InvariantMapPair V) → Result (Analysis V)
  set_pair s l f = do p ← pair_at s l; ok (record s { invariants = modify l f s.invariants })

  unfoldable pub set_pre : Analysis V → Label → V → Result (Analysis V)
  set_pre s l v = set_pair s l (with_pre v)

  unfoldable pub set_error : Analysis V → Label → Result (Analysis V)
  set_error s l = set_pair (record s { failed = true }) l with_error

  unfoldable pub get_pre : Analysis V → Label → Result V
  get_pre s l = do p ← pair_at s l; ok p.pre

  unfoldable pub get_post : Analysis V → Label → Result V
  get_post s l = do p ← pair_at s l; ok p.post

module _ (d : Domain) where
  open d use {
    Value, bottom, is_bottom, le, join, meet, widen, narrow, initialize_loop_counter, transform,
    fails,
  }

  -- Some assertion fails.
  unfoldable pub any_fails : Value → List Assertion → Label → Result Bool
  any_fails v [] l = ok false
  any_fails v (a ∷ rest) l = do t ← fails v a l; (if t then ok true else any_fails v rest l)

  unfoldable pub apply : Analysis Value → Label → Value → Instruction → Result (Analysis Value)
  apply s l pre ins = do post ← transform pre ins; set_pair s l (with_post post)

  -- What is done for an instruction with assertions to check.
  unfoldable pub checked :
      Program → Analysis Value → Label → Value → Instruction → Result (Analysis Value)
  checked prog s l pre ins = do
    p ← pair_at s l
    (if p.error then ok s else (do
      checks ← assertions_at prog l
      t ← any_fails pre checks l
      (if t then set_error s l else apply s l pre ins)))

  unfoldable pub transform_to_post :
      Program → Analysis Value → Label → Value → Result (Analysis Value)
  transform_to_post prog s l pre = do
    ins ← instruction_at prog l
    (if is_increment ins then apply s l pre ins else checked prog s l pre ins)

  -- The join of the states after some nodes.
  unfoldable pub join_posts : Analysis Value → LabelVec → Value → Result Value
  join_posts s [] res = ok res
  join_posts s (prev ∷ rest) res = do v ← get_post s prev; join_posts s rest (join res v)

  unfoldable pub join_all_prevs : Program → Analysis Value → Label → Result Value
  join_all_prevs prog s node =
      if same_label node entry
      then get_pre s node
      else (do prevs ← parents_of prog.cfg node; join_posts s prevs bottom)
