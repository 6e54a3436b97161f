-- ===== src/Ir/RoundTrip/Labels.antt =====
-- The program counters of a sequence whose labels are those that src/ir/unmarshal.cpp gives, against
-- the table of src/ir/marshal.cpp.
use prevail.Prelude.{
  ℕ, ◌+◌, ◌<◌, ◌^◌, true, ◌==◌, ◌≡◌, refl, ap, ◌∙◌, Option, none, some, [], ◌∷◌, if◌then◌else◌,
  arith,
}
use prevail.Prelude.Result.{ok}
use prevail.Arith.Number.{narrow}
use prevail.Cfg.Label.{Label}
use prevail.Ir.Syntax.{Condition, Instruction}
use prevail.Ir.Platform.{Platform}
use prevail.Ir.Marshal.{size}
use prevail.Ir.Marshal.Sequence.{InstructionSeq, resolve, pc_of}
use prevail.Cfg.Label.{same_label}
use prevail.Ir.RoundTrip.Jumps.{to, to_jump, fits-target}
use prevail.Ir.RoundTrip.Branches.{condition}
use prevail.Ir.Marshal.Lengths.{slots}
use prevail.Ir.Marshal.Layout.{total}
use prevail.Ir.RoundTrip.WellFormed.{WellFormed}
use prevail.Ir.RoundTrip.WellFormed.WellFormed.{
  bin_reg, bin_imm, lddw, un, load_map_fd, load_map_address, call, far_call_local, callx, exit,
  goto, branch, load, store, packet, atomic,
}

-- A program counter where an instruction of the sequence starts.
pub data Starts (t : ℕ) : ℕ → InstructionSeq → Type 0 where
  here : (l : Label) (i : Instruction) (rest : InstructionSeq) → Starts t t ((l, i) ∷ rest)
  later :
      (pc : ℕ) (l : Label) (i : Instruction) (rest : InstructionSeq)
      → Starts t (pc + size i) rest
      → Starts t pc ((l, i) ∷ rest)

-- Each label is its instruction's program counter, from one on, and each instruction is
-- well-formed.
pub data Numbered (p : Platform) (T : ℕ → Type 0) : ℕ → InstructionSeq → Type 0 where
  done : (pc : ℕ) → Numbered p T pc []
  next :
      (pc : ℕ) (i : Instruction) (rest : InstructionSeq)
      → WellFormed p T pc i
      → Numbered p T (pc + size i) rest
      → Numbered p T pc ((to pc, i) ∷ rest)

same_label-to : (t pc : ℕ) → same_label (to t) (to pc) ≡ (t == pc)
unfolding same_label
same_label-to t pc = ground arith

same : (t : ℕ) → (t == t) ≡ true
same t = ground arith

chosen : (t pc : ℕ) → (if t == pc then some pc else some t) ≡ some t
chosen t pc = ground arith

module _ (p : Platform) (T : ℕ → Type 0) (t : ℕ) where
  pc_of-found :
      (pc : ℕ) (rest : InstructionSeq)
      → Numbered p T pc rest
      → pc_of (to t) rest pc (some t) ≡ some t
  unfolding pc_of
  pc_of-found pc _ (done _) = refl
  pc_of-found pc _ (next _ i rest w n) =
      ap (λ b. pc_of (to t) rest (pc + size i) (if b then some pc else some t)) (same_label-to t pc)
      ∙ ap (pc_of (to t) rest (pc + size i)) (chosen t pc)
      ∙ pc_of-found (pc + size i) rest n

  -- The label of an instruction's program counter is found there.
  pub pc_of-Starts :
      (pc : ℕ) (rest : InstructionSeq) (found : Option ℕ)
      → Numbered p T pc rest
      → Starts t pc rest
      → pc_of (to t) rest pc found ≡ some t
  unfolding pc_of
  pc_of-Starts pc _ found (done _) s = elim s [ ]
  pc_of-Starts pc _ found (next _ i rest w n) (here _ _ _) =
      ap (λ b. pc_of (to t) rest (t + size i) (if b then some t else found))
        (same_label-to t t ∙ same t)
      ∙ pc_of-found (t + size i) rest n
  pc_of-Starts pc _ found (next _ i rest w n) (later _ _ _ _ s) =
      pc_of-Starts (pc + size i) rest _ n s

-- A well-formed instruction has the slots that `size` counts.
pub slots-WellFormed :
    (p : Platform) (T : ℕ → Type 0) (pc : ℕ) (i : Instruction)
    → WellFormed p T pc i
    → slots i ≡ size i
unfolding slots size
slots-WellFormed p T pc _ (bin_reg o is64 d r hd hr) = refl
slots-WellFormed p T pc _ (bin_imm o is64 d v hd ht hn) = refl
slots-WellFormed p T pc _ (lddw d v hd hv) = refl
slots-WellFormed p T pc _ (un o is64 d hd h) = refl
slots-WellFormed p T pc _ (load_map_fd d fd hd) = refl
slots-WellFormed p T pc _ (load_map_address d fd off hd) = refl
slots-WellFormed p T pc _ (call c usable h) = refl
slots-WellFormed p T pc _ (far_call_local t h far) = refl
slots-WellFormed p T pc _ (callx r h) = refl
slots-WellFormed p T pc _ exit = refl
slots-WellFormed p T pc _ (load w base r off hb hr) = refl
slots-WellFormed p T pc _ (store w base off v hb hv) = refl
slots-WellFormed p T pc _ (packet w i r hr h) = refl
slots-WellFormed p T pc _ (atomic o fetch w base r off hb hr h hf) = refl
slots-WellFormed p T pc _ (goto t h) = refl
slots-WellFormed p T pc _ (branch o l t v h near hl hv) = refl

pub size-positive : (i : Instruction) → 0 < size i
unfolding size
size-positive i = ground arith

-- A start lies before the end.
pub Starts-lt : {t pc : ℕ} {rest : InstructionSeq} → Starts t pc rest → t < pc + total size rest
Starts-lt (here _ i rest) = omega (arith, size-positive i)
Starts-lt (later _ l i rest s) = omega (arith, Starts-lt s)

module _ (p : Platform) (T : ℕ → Type 0) (all : InstructionSeq)
    (table : (t : ℕ) → T t → (pc_of (to t) all 0 none ≡ some t) × (t < 2 ^ 31)) where
  resolve-jump : (c : Option Condition) (t : ℕ) → T t → resolve all (to_jump c t) ≡ ok (to_jump c t)
  unfolding resolve narrow
  resolve-jump c t h = rw ((table t h).0, fits-target t (table t h).1) refl

  -- A jump to the label of a program counter stays as it is.
  pub resolve-WellFormed : (pc : ℕ) (i : Instruction) → WellFormed p T pc i → resolve all i ≡ ok i
  unfolding resolve
  resolve-WellFormed pc _ (goto t h) = resolve-jump none t h
  resolve-WellFormed pc _ (branch o l t v h near hl hv) = resolve-jump (some (condition o l v)) t h
  resolve-WellFormed pc _ (bin_reg o is64 d r hd hr) = refl
  resolve-WellFormed pc _ (bin_imm o is64 d v hd ht hn) = refl
  resolve-WellFormed pc _ (lddw d v hd hv) = refl
  resolve-WellFormed pc _ (un o is64 d hd h) = refl
  resolve-WellFormed pc _ (load_map_fd d fd hd) = refl
  resolve-WellFormed pc _ (load_map_address d fd off hd) = refl
  resolve-WellFormed pc _ (call c usable h) = refl
  resolve-WellFormed pc _ (far_call_local t h far) = refl
  resolve-WellFormed pc _ (callx r h) = refl
  resolve-WellFormed pc _ exit = refl
  resolve-WellFormed pc _ (load w base r off hb hr) = refl
  resolve-WellFormed pc _ (store w base off v hb hv) = refl
  resolve-WellFormed pc _ (packet w i r hr h) = refl
  resolve-WellFormed pc _ (atomic o fetch w base r off hb hr h hf) = refl
