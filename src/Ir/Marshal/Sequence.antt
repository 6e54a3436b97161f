-- ===== src/Ir/Marshal/Sequence.antt =====
-- The encoder of an instruction sequence, of src/ir/marshal.cpp: the labels' program counters, and
-- the loop that resolves jumps by them.
use prevail.Prelude.{ℕ, ◌+◌, Option, none, some, List, [], ◌∷◌, ◌++◌, if◌then◌else◌}
use prevail.Prelude.Int.{ℤ, pos, negsuc}
use prevail.Prelude.Result.{Result, ok, err, ◌>>=◌, no_value}
use prevail.Prelude.Lists.{length}
use prevail.Arith.Number.{narrow, sint}
use prevail.Cfg.Label.{Label, label, same_label}
use prevail.Ir.Syntax.{Instruction}
use prevail.Ir.Isa.{EbpfInst}
use prevail.Ir.Marshal.{marshal_one, size}

-- `get_labels` fills a map in the order of the sequence, so that a later entry of the same label
-- replaces an earlier one: `pc_of` is the map, as the function that looks a label up.
unfoldable pub pc_of : Label → List (Label × Instruction) → ℕ → Option ℕ → Option ℕ
pc_of key [] pc found = found
pc_of key ((l, i) ∷ rest) pc found =
    pc_of key rest (pc + size i) (if same_label key l then some pc else found)

abbrev pub InstructionSeq : Type 0
InstructionSeq = List (Label × Instruction)

abbrev index_label : ℤ → Label
index_label i = label i (negsuc 0) []

abbrev pub at : Option ℕ → Result ℕ
at (some pc) = ok pc
at none = err no_value

-- A jump's target becomes the program counter of its label.
unfoldable pub resolve : InstructionSeq → Instruction → Result Instruction
resolve all (Instruction.jmp b) = do
  pc ← at (pc_of b.target all 0 none)
  i ← narrow (sint 32) (pos pc)
  ok (Instruction.jmp (record b { target = index_label i }))
resolve all i = ok i

-- The loop of `marshal`, from a program counter on.
unfoldable pub marshal_from : InstructionSeq → InstructionSeq → ℕ → Result (List EbpfInst)
marshal_from all [] pc = ok []
marshal_from all ((l, ins) ∷ rest) pc = do
  resolved ← resolve all ins
  es ← marshal_one resolved pc
  more ← marshal_from all rest (pc + length es)
  ok (es ++ more)

unfoldable pub marshal : InstructionSeq → Result (List EbpfInst)
marshal insts = marshal_from insts insts 0
