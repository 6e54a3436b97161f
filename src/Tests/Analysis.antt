-- ===== src/Tests/Analysis.antt =====
-- The analysis of a loop of two nodes, with the interval of the loop's counter as its domain.
use prevail.Prelude.{false, [], ◌∷◌}
use prevail.Prelude.Int.{ℤ, pos, negsuc}
use prevail.Prelude.Result.{Result, ok, err}
use prevail.Arith.Extended
use prevail.Crab.Interval
use prevail.Analyzer.Counter.{CounterValue, zero_value, counter}
use prevail.Cfg.Label.{Label, label}
use prevail.Cfg.Graph.{entry, exit}
use prevail.Cfg.Wto.{WtoPartition, vertex, cycle, nil, cons}
use prevail.Ir.Syntax.{Instruction, bounded_loop_count}
use prevail.Ir.Program.{Program}
use prevail.Analyzer.{Domain, Analysis}
use prevail.Analyzer.Visits.{run, start}

abbrev at_index : ℤ → Label
at_index i = label i (negsuc 0) []

abbrev loop_head : Label
loop_head = at_index (pos 0)

abbrev back : Label
back = at_index (pos 1)

abbrev looping : Program
looping = record {
  instructions =
      (entry, Instruction.undefined (pos 0))
      ∷ (loop_head, Instruction.increment_loop_counter loop_head)
      ∷ (back, Instruction.exit [])
      ∷ (exit, Instruction.undefined (pos 0))
      ∷ [];
  assertions =
      (entry, []) ∷ (loop_head, bounded_loop_count loop_head ∷ []) ∷ (back, []) ∷ (exit, []) ∷ [];
  cfg = record {
    neighbours =
        (entry, record { parents = []; children = loop_head ∷ [] })
        ∷ (loop_head, record { parents = entry ∷ back ∷ []; children = back ∷ [] })
        ∷ (back, record { parents = loop_head ∷ []; children = loop_head ∷ exit ∷ [] })
        ∷ (exit, record { parents = back ∷ []; children = [] })
        ∷ [];
  };
}

abbrev order : WtoPartition
order =
    cons (vertex entry)
      (cons (cycle (cons (vertex loop_head) (cons (vertex back) nil))) (cons (vertex exit) nil))

-- The counter of the loop, from 0.
abbrev domain : Domain
domain = counter loop_head

abbrev outcome_of : Result (Analysis CounterValue) → Analysis CounterValue
outcome_of (ok s) = s
outcome_of (err e) = start domain looping

abbrev outcome : Analysis CounterValue
outcome = outcome_of (run domain 6 looping order false zero_value)
