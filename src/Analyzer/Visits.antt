-- ===== src/Analyzer/Visits.antt =====
-- The visits of nodes and cycles by `InterleavedFwdFixpointIterator` of src/fwd_analyzer.cpp, and `run`.
use prevail.Prelude.{
  ℕ, zero, suc, Bool, true, false, not, ◌&&◌, ◌==◌, ltb, List, [], ◌∷◌, if◌then◌else◌,
}
use prevail.Prelude.Result.{Result, ok, err, ◌>>=◌, loop_assertions, out_of_fuel}
use prevail.Cfg.Label.{Label, same_label}
use prevail.Cfg.Order.{LabelVec}
use prevail.Cfg.Graph.{entry, parents_of, labels}
use prevail.Cfg.Wto.{
  CycleOrLabel, vertex, cycle, WtoPartition, nil, cons, head, is_component_member, nesting,
  nests_in, loop_heads,
}
use prevail.Ir.Syntax.{Assertion}
use prevail.Ir.Program.{Program, instruction_at, assertions_at}
use prevail.Analyzer.{
  Domain, InvariantMapPair, Analysis, is_increment, set_pre, get_pre, get_post, set_error,
}
use prevail.Analyzer

abbrev pub descending_iterations : ℕ
descending_iterations = 2000000

abbrev pub is_vertex : Label → CycleOrLabel → Bool
is_vertex h (vertex l) = same_label l h
is_vertex h (cycle c) = false

abbrev pub one_check : List Assertion → Result Assertion
one_check (a ∷ []) = ok a
one_check checks = err loop_assertions

module _ (d : Domain) where
  open d use {
    Value, bottom, is_bottom, le, join, meet, widen, narrow, initialize_loop_counter, fails,
  }

  unfoldable pub extrapolate : Value → Value → ℕ → Value
  extrapolate before after iteration =
      if ltb iteration 2 then join before after else widen before after (iteration == 2)

  unfoldable pub refine : Value → Value → ℕ → Value
  refine before after iteration = if iteration == 1 then meet before after else narrow before after

  -- A node, once the analysis no longer skips.
  unfoldable pub visit_node : Program → Analysis Value → Label → Result (Analysis Value)
  visit_node prog s node = do
    pre ← Analyzer.join_all_prevs d prog s node
    s1 ← set_pre s node pre
    Analyzer.transform_to_post d prog s1 node pre

  unfoldable pub visit_label : Program → Analysis Value → Label → Result (Analysis Value)
  visit_label prog s node =
      let s1 = record s { skip = s.skip && not (same_label node entry) } in
      if s1.skip then ok s1 else visit_node prog s1 node

  -- The states after the parents that no deeper cycle holds.
  unfoldable pub join_outer :
      WtoPartition → Analysis Value → List Label → LabelVec → Value → Result Value
  join_outer wto s heads [] res = ok res
  join_outer wto s heads (prev ∷ rest) res = do
    others ← nesting wto prev
    res1 ← (if nests_in others heads then ok res else (do v ← get_post s prev; ok (join res v)))
    join_outer wto s heads rest res1

  unfoldable pub initial_invariant :
      Program → WtoPartition → Analysis Value → Label → Bool → Result Value
  initial_invariant prog wto s h entry_in_this_cycle =
      if entry_in_this_cycle then get_pre s entry else (do
        heads ← nesting wto h
        prevs ← parents_of prog.cfg h
        join_outer wto s heads prevs bottom)

  -- The pass over the cycle's other components is `pass`.
  unfoldable pub increase :
      Program
      → Label
      → (Analysis Value → Result (Analysis Value))
      → ℕ
      → ℕ
      → Value
      → Analysis Value
      → Result (Analysis Value × Value)
  increase prog h pass zero iteration invariant s = err out_of_fuel
  increase prog h pass (suc fuel) iteration invariant s = do
    s1 ← set_pre s h invariant
    s2 ← Analyzer.transform_to_post d prog s1 h invariant
    s3 ← pass s2
    new_pre ← Analyzer.join_all_prevs d prog s3 h
    (let again =
          increase prog h pass fuel (suc iteration) (extrapolate invariant new_pre iteration) s3 in
        if le new_pre invariant then (do s4 ← set_pre s3 h new_pre; ok (s4, new_pre)) else again)

  -- One round of the decreasing sequence; the value is the state before the head after it.
  unfoldable pub descend :
      Program
      → Label
      → (Analysis Value → Result (Analysis Value))
      → Value
      → Analysis Value
      → Result (Analysis Value × Value)
  descend prog h pass invariant s = do
    s1 ← Analyzer.transform_to_post d prog s h invariant
    s2 ← pass s1
    new_pre ← Analyzer.join_all_prevs d prog s2 h
    ok (s2, new_pre)

  -- The number counts the rounds that are left before the limit ends the loop. `EbpfDomain` is
  -- assigned by copy, so that the invariant stays when `set_pre` takes it.
  unfoldable pub decrease :
      Program
      → Label
      → (Analysis Value → Result (Analysis Value))
      → ℕ
      → ℕ
      → Value
      → Analysis Value
      → Result (Analysis Value)
  decrease prog h pass zero iteration invariant s = do
    (s2, new_pre) ← descend prog h pass invariant s
    ok s2
  decrease prog h pass (suc left) iteration invariant s = do
    (s2, new_pre) ← descend prog h pass invariant s
    (let smaller = refine invariant new_pre iteration in
        let again = (do
          s3 ← set_pre s2 h smaller
          decrease prog h pass left (suc iteration) smaller s3) in
        if le invariant new_pre then ok s2 else again)

  -- A cycle that is not skipped.
  unfoldable pub visit_loop :
      ℕ
      → Program
      → WtoPartition
      → Label
      → Bool
      → (Analysis Value → Result (Analysis Value))
      → Analysis Value
      → Result (Analysis Value)
  visit_loop fuel prog wto h entry_in_this_cycle pass s = do
    invariant ← initial_invariant prog wto s h entry_in_this_cycle
    (s1, stable) ← increase prog h pass fuel 1 invariant s
    decrease prog h pass descending_iterations 1 stable s1

  unfoldable pub visit_cycle :
      ℕ
      → Program
      → WtoPartition
      → WtoPartition
      → Label
      → (Analysis Value → Result (Analysis Value))
      → Analysis Value
      → Result (Analysis Value)
  visit_cycle fuel prog wto c h pass s =
      if s.skip
      then (do
        entry_in_this_cycle ← is_component_member entry (cycle c)
        (if entry_in_this_cycle
            then visit_loop fuel prog wto h true pass (record s { skip = false })
            else ok s))
      else visit_loop fuel prog wto h false pass s

  -- A component, and those of a cycle other than its head. Each loop has the same fuel.
  unfoldable mutual
    pub visit : ℕ → Program → WtoPartition → CycleOrLabel → Analysis Value → Result (Analysis Value)
    visit fuel prog wto (vertex l) s = visit_label prog s l
    visit fuel prog wto (cycle c) s = do
      h ← head c
      visit_cycle fuel prog wto c h (λ t. visit_members fuel prog wto h c t) s

    pub visit_members :
        ℕ → Program → WtoPartition → Label → WtoPartition → Analysis Value → Result (Analysis Value)
    visit_members fuel prog wto h nil s = ok s
    visit_members fuel prog wto h (cons c cs) s =
        let visited = visit fuel prog wto c s in
        do s1 ← (if is_vertex h c then ok s else visited); visit_members fuel prog wto h cs s1

  -- The components of the order, one after the other.
  unfoldable pub visit_all :
      ℕ → Program → WtoPartition → WtoPartition → Analysis Value → Result (Analysis Value)
  visit_all fuel prog wto nil s = ok s
  visit_all fuel prog wto (cons c cs) s = do
    s1 ← visit fuel prog wto c s
    visit_all fuel prog wto cs s1

  abbrev pub bottoms : LabelVec → List (Label × InvariantMapPair Value)
  bottoms [] = []
  bottoms (l ∷ rest) = (l, record { pre = bottom; error = false; post = bottom }) ∷ bottoms rest

  -- The constructor.
  unfoldable pub start : Program → Analysis Value
  start prog = record { invariants = bottoms (labels prog.cfg); failed = false; skip = true }

  unfoldable pub check_loop_bound : Program → Label → Value → Result Bool
  check_loop_bound prog l pre = do
    ins ← instruction_at prog l
    (if is_increment ins
        then (do checks ← assertions_at prog l; a ← one_check checks; fails pre a l)
        else ok false)

  unfoldable pub find_termination_errors :
      Program → List (Label × InvariantMapPair Value) → Analysis Value → Result (Analysis Value)
  find_termination_errors prog [] s = ok s
  find_termination_errors prog ((l, p) ∷ rest) s = do
    s1 ←
        (if is_bottom p.pre
          then ok s
          else (do t ← check_loop_bound prog l p.pre; (if t then set_error s l else ok s)))
    find_termination_errors prog rest s1

  abbrev pub initialize_counters : List Label → Value → Value
  initialize_counters [] v = v
  initialize_counters (l ∷ rest) v = initialize_counters rest (initialize_loop_counter v l)

  abbrev pub counted : Bool → WtoPartition → Value → Result Value
  counted false wto v = ok v
  counted true wto v = do heads ← loop_heads wto; ok (initialize_counters heads v)

  -- `run`, but for the maximal loop count and the exit value, which it reads off the result.
  unfoldable pub run :
      ℕ → Program → WtoPartition → (check_for_termination : Bool) → Value → Result (Analysis Value)
  run fuel prog wto check_for_termination entry_inv = do
    v ← counted check_for_termination wto entry_inv
    s1 ← set_pre (start prog) entry v
    s2 ← visit_all fuel prog wto wto s1
    (if not s2.failed && check_for_termination
        then find_termination_errors prog s2.invariants s2
        else ok s2)
