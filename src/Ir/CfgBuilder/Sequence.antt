-- ===== src/Ir/CfgBuilder/Sequence.antt =====
-- `Program::from_sequence` of src/ir/cfg_builder.cpp. The order of a graph's components, which the source
-- constructs, is what the argument `wto_of` gives.
pub mod Annotated
use prevail.Prelude.{Bool, Option, some, List, [], ◌∷◌, if◌then◌else◌}
use prevail.Prelude.Result.{Result, ok, ◌>>=◌}
use prevail.Cfg.Label.{Label, make_increment_counter}
use prevail.Cfg.Order.{LabelVec}
use prevail.Cfg.Graph.{Cfg, labels}
use prevail.Cfg.Wto.{WtoPartition, loop_heads}
use prevail.Ir.Syntax.{Instruction}
use prevail.Ir.Assertions.{Extractor, get_assertions}
use prevail.Ir.Marshal.Sequence.{InstructionSeq}
use prevail.Ir.Program.{Program, instruction_at, insert_after, set_assertions}
use prevail.Ir.CfgBuilder.Inline.{instruction_seq_to_cfg}

unfoldable pub insert_counters : List Label → Program → Result Program
insert_counters [] p = ok p
insert_counters (l ∷ rest) p = do
  p1 ← insert_after p l (make_increment_counter l) (Instruction.increment_loop_counter l)
  insert_counters rest p1

abbrev pub extractor : Bool → Label → Extractor
extractor is_privileged l = record { is_privileged = is_privileged; current_label = some l }

unfoldable pub annotate : Bool → LabelVec → Program → Result Program
annotate is_privileged [] p = ok p
annotate is_privileged (l ∷ rest) p = do
  i ← instruction_at p l
  checks ← get_assertions (extractor is_privileged l) i
  p1 ← set_assertions p l checks
  annotate is_privileged rest p1

unfoldable pub from_sequence :
    (Cfg → WtoPartition)
    → (is_privileged must_have_exit check_for_termination : Bool) → InstructionSeq
    → Result Program
from_sequence wto_of is_privileged must_have_exit check_for_termination insts = do
  p ← instruction_seq_to_cfg insts must_have_exit
  p1 ←
      (if check_for_termination
        then (do heads ← loop_heads (wto_of p.cfg); insert_counters heads p)
        else ok p)
  annotate is_privileged (labels p1.cfg) p1
