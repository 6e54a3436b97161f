-- ===== src/Ir/RoundTrip/Program.antt =====
-- `unmarshal` of src/ir/unmarshal.cpp on the encoding of a whole sequence by src/ir/marshal.cpp.
use prevail.Prelude.{
  ℕ, ◌+◌, ◌<◌, ◌≤◌, ◌^◌, ◌≡◌, refl, sym, ap, ◌∙◌, none, some, List, [], ◌∷◌, ◌++◌, inl, arith,
}
use prevail.Prelude.Int.{pos}
use prevail.Prelude.Lists.{length, length-append, append_assoc, get_elem?, get_elem?-length}
use prevail.Prelude.Result.{Result, ok, err, ◌>>=◌, IfOk, yields, IfOk-bind, IfOk-value}
use prevail.Arith.Number.{narrow, sint}
use prevail.Ir.Syntax.{Instruction}
use prevail.Ir.Isa.{EbpfInst}
use prevail.Ir.Platform.{Platform, SupportsAll}
use prevail.Ir.Marshal.{marshal_one, size}
use prevail.Ir.Marshal.Lengths.{length-marshal_one}
use prevail.Ir.Marshal.Layout.{total}
use prevail.Ir.Marshal.Sequence.{InstructionSeq, marshal, marshal_from, resolve}
use prevail.Ir.Unmarshal.Sequence.{unmarshal_from, unmarshal_insts, unmarshal, caught}
use prevail.Ir.RoundTrip.Reads.{Reads, one, two}
use prevail.Ir.RoundTrip.First.{First, first, marshal_one-First}
use prevail.Ir.RoundTrip.Jumps.{Target, to, fits-target}
use prevail.Ir.RoundTrip.WellFormed.{WellFormed, marshal_one-Reads}
use prevail.Ir.RoundTrip.Labels.{
  Starts, here, later, Numbered, done, next, pc_of-Starts, slots-WellFormed, size-positive,
  Starts-lt, resolve-WellFormed,
}

narrow-pc : (pc : ℕ) → pc < 2 ^ 31 → narrow (sint 32) (pos pc) ≡ ok (pos pc)
unfolding narrow
narrow-pc pc h = rw (fits-target pc h) refl

module _ (p : Platform) (insts : List EbpfInst) where
  abbrev continue : ℕ → Instruction → Result InstructionSeq → Result InstructionSeq
  continue pc i r = do more ← r; ok ((to pc, i) ∷ more)

  -- The loop goes on after the slots of one instruction.
  read_on :
      (pc : ℕ) (i : Instruction) (es more : List EbpfInst)
      → pc < 2 ^ 31
      → Reads p insts pc i es
      → unmarshal_from p insts pc (es ++ more)
        ≡ continue pc i (unmarshal_from p insts (pc + length es) more)
  unfolding unmarshal_from
  read_on pc i _ [] lt (one e h z) = rw (h none, narrow-pc pc lt) refl
  read_on pc i _ (m ∷ ms) lt (one e h z) =
      rw (h (some m), narrow-pc pc lt)
        (ap (λ n. continue pc i (unmarshal_from p insts n (m ∷ ms))) (omega arith))
  read_on pc i _ more lt (two e e' h z) =
      rw (h, narrow-pc pc lt)
        (ap (λ n. continue pc i (unmarshal_from p insts n more)) (omega arith))

-- The slots of a well-formed instruction.
length-encoding :
    (p : Platform) (T : ℕ → Type 0) (pc : ℕ) (i : Instruction) (es : List EbpfInst)
    → WellFormed p T pc i
    → marshal_one i pc ≡ ok es
    → length es ≡ size i
length-encoding p T pc i es w e = length-marshal_one i pc es e ∙ slots-WellFormed p T pc i w

module _ (p : Platform) (all : SupportsAll p) (prog : InstructionSeq) (T : ℕ → Type 0)
    (same : (pc : ℕ) (i : Instruction) → WellFormed p T pc i → resolve prog i ≡ ok i) where
  -- Where an instruction starts, there is a slot that a jump may lead to.
  begins_slot :
      (t pc : ℕ) (rest : InstructionSeq)
      → Numbered p T pc rest
      → Starts t pc rest
      → t < 2 ^ 31
      → IfOk
          (λ es. (pre : List EbpfInst) → length pre ≡ pc → Target (pre ++ es) t)
          (marshal_from prog rest pc)
  unfolding marshal_from
  begins_slot t pc _ (done _) s lt = elim s [ ]
  begins_slot t pc _ (next _ i rest w n) (here _ _ _) lt = rw (same t i w) (
      IfOk-bind (marshal_one i t) λ enc h.
        IfOk-bind (marshal_from prog rest (t + length enc)) λ more k.
          yields
            (λ pre e. at_first pre more enc e (IfOk-value h (marshal_one-First p all T t i w))))
    where
      at_first :
          (pre more enc : List EbpfInst)
          → length pre ≡ t
          → First enc
          → Target (pre ++ (enc ++ more)) t
      at_first pre more _ e (first inst es z) = record {
        at_target = inst;
        get_elem?-target = ap (get_elem? _) (sym e) ∙ get_elem?-length pre inst (es ++ more);
        target-nonzero = z;
        target-lt = lt;
      }
  begins_slot t pc _ (next _ i rest w n) (later _ _ _ _ s) lt = rw (same pc i w) (
      IfOk-bind (marshal_one i pc) λ enc h.
        IfOk-bind (marshal_from prog rest (pc + length enc)) λ more k. yields (λ pre e.
          let width = length-encoding p T pc i enc w h in
          rw (← append_assoc pre enc more) (
            IfOk-value (ap (λ n. marshal_from prog rest (pc + n)) (sym width) ∙ k)
              (begins_slot t (pc + size i) rest n s lt) (pre ++ enc)
              (omega (arith, length-append pre enc, width, e)))))

  module _ (insts : List EbpfInst) (target : (t : ℕ) → T t → Target insts t) where
    read_back :
        (pc : ℕ) (rest : InstructionSeq)
        → Numbered p T pc rest
        → pc + total size rest ≤ 2 ^ 31
        → IfOk (λ es. unmarshal_from p insts pc es ≡ ok rest) (marshal_from prog rest pc)
    unfolding marshal_from unmarshal_from
    read_back pc _ (done _) h = yields refl
    read_back pc _ (next _ i rest w n) h = rw (same pc i w) (
        IfOk-bind (marshal_one i pc) λ enc e.
          IfOk-bind (marshal_from prog rest (pc + length enc)) λ more k.
            let width = length-encoding p T pc i enc w e in
            yields (
              read_on p insts pc i enc more (omega (arith, h, size-positive i))
                (IfOk-value e (marshal_one-Reads p all insts T target pc i w))
              ∙ ap (λ m. continue p insts pc i (unmarshal_from p insts (pc + m) more)) width
              ∙ ap (continue p insts pc i) (
                  IfOk-value (ap (λ m. marshal_from prog rest (pc + m)) (sym width) ∙ k)
                    (read_back (pc + size i) rest n (omega (arith, h))))))

abbrev count : Result InstructionSeq → ℕ
count (ok prog) = length prog
count (err e) = 0

-- The program counters that jumps of a sequence may lead to.
abbrev pub StartsIn : InstructionSeq → ℕ → Type 0
StartsIn prog t = Starts t 0 prog

decode_all :
    (p : Platform) (prog : InstructionSeq) (es : List EbpfInst)
    → 0 < length prog
    → unmarshal_from p es 0 es ≡ ok prog
    → unmarshal p es ≡ ok (inl prog)
unfolding unmarshal unmarshal_insts unmarshal_from caught
decode_all p prog [] h e = absurd (omega (arith, h, ap count e))
decode_all p prog (inst ∷ es) h e = ap caught e

-- Decoding the encoding of a sequence gives the sequence back: on a platform that supports all
-- groups of instructions, for every non-empty sequence of up to 2 ^ 31 slots that is encoded,
-- whose labels are the program counters of its instructions and whose instructions are well-
-- formed: registers, operands, widths and calls as the decoder makes them, no 32-bit comparison,
-- no left shift by 32, no local call whose displacement fits in 16 bits and no conditional jump
-- whose displacement does not, and jumps that lead to where instructions start.
pub unmarshal-marshal :
    (p : Platform) (prog : InstructionSeq) (es : List EbpfInst)
    → SupportsAll p
    → 0 < length prog
    → total size prog ≤ 2 ^ 31
    → Numbered p (StartsIn prog) 0 prog
    → marshal prog ≡ ok es
    → unmarshal p es ≡ ok (inl prog)
unfolding marshal
unmarshal-marshal p prog es all some_instruction short n e =
    let same = resolve-WellFormed p (StartsIn prog) prog λ t s.
      (pc_of-Starts p (StartsIn prog) t 0 prog none n s, omega (arith, Starts-lt s, short)) in
    decode_all p prog es some_instruction (
      IfOk-value e (
        read_back p all prog (StartsIn prog) same es
          (λ t s.
            IfOk-value e
              (begins_slot p all prog (StartsIn prog) same t 0 prog n s
                (omega (arith, Starts-lt s, short)))
              [] refl)
          0 prog n (omega (arith, short))))
