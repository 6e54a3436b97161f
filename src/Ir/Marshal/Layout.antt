-- ===== src/Ir/Marshal/Layout.antt =====
-- Where src/ir/marshal.cpp puts the encoding of each instruction of a sequence, against the
-- program counters of `get_labels`, by which it resolves the jumps.
use prevail.Prelude.{
  ℕ, ◌+◌, ◌≡◌, refl, sym, ap, ◌∙◌, true, false, some, none, Option, List, [], ◌∷◌, ◌++◌,
  if◌then◌else◌, arith,
}
use prevail.Prelude.Result.{ok, IfOk, yields, IfOk-bind, IfOk-value}
use prevail.Prelude.Lists.{length, length-append, append_assoc, All}
use prevail.Prelude.Int.{pos}
use prevail.Arith.Number.{narrow, sint}
use prevail.Cfg.Label.{Label}
use prevail.Ir.Syntax.{Instruction}
use prevail.Ir.Isa.{EbpfInst}
use prevail.Ir.Marshal.{marshal_one, size}
use prevail.Ir.Marshal.Lengths.{slots, length-marshal_one}
use prevail.Cfg.Label.{same_label}
use prevail.Ir.Marshal.Sequence.{InstructionSeq, marshal, marshal_from, resolve, pc_of, at}

abbrev pub total : (Instruction → ℕ) → InstructionSeq → ℕ
total f [] = 0
total f ((l, i) ∷ rest) = f i + total f rest

resolve-slots :
    (all : InstructionSeq) (i : Instruction) → IfOk (λ r. slots r ≡ slots i) (resolve all i)
unfolding resolve slots size
resolve-slots all (Instruction.jmp b) =
    IfOk-bind (at (pc_of b.target all 0 none))
      λ pc e. IfOk-bind (narrow (sint 32) (pos pc)) λ i h. yields refl
resolve-slots all (Instruction.undefined o) = yields refl
resolve-slots all (Instruction.bin b) = yields refl
resolve-slots all (Instruction.un b) = yields refl
resolve-slots all (Instruction.load_map_fd b) = yields refl
resolve-slots all (Instruction.call b) = yields refl
resolve-slots all (Instruction.call_local b) = yields refl
resolve-slots all (Instruction.callx r) = yields refl
resolve-slots all (Instruction.exit p) = yields refl
resolve-slots all (Instruction.mem b) = yields refl
resolve-slots all (Instruction.packet b) = yields refl
resolve-slots all (Instruction.atomic b) = yields refl
resolve-slots all (Instruction.assume a) = yields refl
resolve-slots all (Instruction.increment_loop_counter l) = yields refl
resolve-slots all (Instruction.load_map_address b) = yields refl

-- The encoding `es` of a sequence, from a program counter on, holds that of instruction `i`
-- after the slots of the instructions before it.
pub record Placed (all before : InstructionSeq) (i : Instruction) (pc : ℕ) (es : List EbpfInst)
    : Type 0 where
  pub resolved : Instruction
  pub earlier : List EbpfInst
  pub encoding : List EbpfInst
  pub later : List EbpfInst
  pub es-parts : es ≡ earlier ++ (encoding ++ later)
  pub length-earlier : length earlier ≡ total slots before
  pub resolve-ok : resolve all i ≡ ok resolved
  pub marshal_one-ok : marshal_one resolved (pc + total slots before) ≡ ok encoding

-- One more instruction before.
shift :
    {all : InstructionSeq} {i : Instruction} (m : Label) (j : Instruction) (before : InstructionSeq)
    (pc : ℕ) (enc : List EbpfInst)
    → length enc ≡ slots j
    → (more : List EbpfInst) → Placed all before i (pc + length enc) more
    → Placed all ((m, j) ∷ before) i pc (enc ++ more)
shift m j before pc enc width more p = record {
  resolved = p.resolved;
  earlier = enc ++ p.earlier;
  encoding = p.encoding;
  later = p.later;
  es-parts =
      ap (λ ws. enc ++ ws) p.es-parts ∙ sym (append_assoc enc p.earlier (p.encoding ++ p.later));
  length-earlier = omega (arith, length-append enc p.earlier, width, p.length-earlier);
  resolve-ok = p.resolve-ok;
  marshal_one-ok = ap (marshal_one p.resolved) (omega (arith, width)) ∙ p.marshal_one-ok;
}

module _ (all : InstructionSeq) (l : Label) (i : Instruction) (after : InstructionSeq) where
  place :
      (before : InstructionSeq) (pc : ℕ)
      → IfOk (Placed all before i pc) (marshal_from all (before ++ (l, i) ∷ after) pc)
  unfolding marshal_from
  place [] pc = IfOk-bind (resolve all i) λ r e. IfOk-bind (marshal_one r pc) λ enc h.
      IfOk-bind (marshal_from all after (pc + length enc)) λ more k. yields record {
        resolved = r;
        earlier = [];
        encoding = enc;
        later = more;
        es-parts = refl;
        length-earlier = refl;
        resolve-ok = e;
        marshal_one-ok = ap (marshal_one r) (omega arith) ∙ h;
      }
  place ((m, j) ∷ before) pc = IfOk-bind (resolve all j) λ r e.
      IfOk-bind (marshal_one r pc) λ enc h.
        IfOk-bind (marshal_from all (before ++ (l, i) ∷ after) (pc + length enc)) λ more k. yields (
          shift m j before pc enc
            (length-marshal_one r pc enc h ∙ IfOk-value e (resolve-slots all j)) more
            (IfOk-value k (place before (pc + length enc))))

-- The whole: the slots of all instructions.
total-slots :
    (all rest : InstructionSeq) (pc : ℕ)
    → IfOk (λ es. length es ≡ total slots rest) (marshal_from all rest pc)
unfolding marshal_from
total-slots all [] pc = yields refl
total-slots all ((l, i) ∷ rest) pc = IfOk-bind (resolve all i) λ r e.
    IfOk-bind (marshal_one r pc) λ enc h.
      IfOk-bind (marshal_from all rest (pc + length enc)) λ more k. yields (
        length-append enc more
        ∙ ap (λ n. n + length more)
            (length-marshal_one r pc enc h ∙ IfOk-value e (resolve-slots all i))
        ∙ ap (λ n. slots i + n) (IfOk-value k (total-slots all rest (pc + length enc))))

-- A later label that is not `key` leaves what was found.
pc_of-absent :
    (key : Label) (rest : InstructionSeq) (pc : ℕ) (found : Option ℕ)
    → All (λ entry. same_label key entry.0 ≡ false) rest
    → pc_of key rest pc found ≡ found
unfolding pc_of
pc_of-absent key [] pc found h = refl
pc_of-absent key ((l, i) ∷ rest) pc found h =
    pc_of-absent key rest (pc + size i) _ (h.1) ∙ ap (λ t. if t then some pc else found) (h.0)

-- `get_labels` maps a label to the sizes of the instructions before its last entry.
pc_of-last :
    (key l : Label) (i : Instruction) (before after : InstructionSeq) (pc : ℕ) (found : Option ℕ)
    → same_label key l ≡ true
    → All (λ entry. same_label key entry.0 ≡ false) after
    → pc_of key (before ++ (l, i) ∷ after) pc found ≡ some (pc + total size before)
unfolding pc_of
pc_of-last key l i [] after pc found e h =
    pc_of-absent key after (pc + size i) _ h
    ∙ ap (λ t. if t then some pc else found) e
    ∙ ap some (omega arith)
pc_of-last key l i ((m, j) ∷ before) after pc found e h =
    pc_of-last key l i before after (pc + size j) _ e h ∙ ap some (omega arith)

-- Where a sequence is encoded, the encoding of each of its instructions, with its jump resolved,
-- stands after the slots of the instructions before it, and is made for that program counter.
pub marshal-Placed :
    (before : InstructionSeq) (l : Label) (i : Instruction) (after : InstructionSeq)
    (es : List EbpfInst)
    → marshal (before ++ (l, i) ∷ after) ≡ ok es
    → Placed (before ++ (l, i) ∷ after) before i 0 es
unfolding marshal
marshal-Placed before l i after es e =
    IfOk-value e (place (before ++ (l, i) ∷ after) l i after before 0)

-- Where a sequence is encoded, its encoding takes the sum of its instructions' slots: size each,
-- and none for a loop counter.
length-marshal :
    (insts : InstructionSeq) (es : List EbpfInst)
    → marshal insts ≡ ok es
    → length es ≡ total slots insts
unfolding marshal
length-marshal insts es e = IfOk-value e (total-slots insts insts 0)

total-same :
    (insts : InstructionSeq)
    → All (λ entry. slots entry.1 ≡ size entry.1) insts
    → total slots insts ≡ total size insts
total-same [] h = refl
total-same ((l, i) ∷ rest) h = omega (arith, h.0, total-same rest (h.1))

-- The program counter that get_labels gives to a label is the place where the encoding of its
-- instruction stands, where no loop counter comes before it and no later entry has the label.
pc_of-Placed :
    (before : InstructionSeq) (l : Label) (i : Instruction) (after : InstructionSeq)
    (es : List EbpfInst)
    → (p : Placed (before ++ (l, i) ∷ after) before i 0 es) → same_label l l ≡ true
    → All (λ entry. slots entry.1 ≡ size entry.1) before
    → All (λ entry. same_label l entry.0 ≡ false) after
    → pc_of l (before ++ (l, i) ∷ after) 0 none ≡ some (length p.earlier)
pc_of-Placed before l i after es p same h k =
    pc_of-last l l i before after 0 none same k
    ∙ ap some (omega (arith, total-same before h, p.length-earlier))
