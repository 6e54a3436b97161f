-- ===== src/Ir/RoundTrip/Reads.antt =====
-- One round of the loop of src/ir/unmarshal.cpp on the slots of one instruction, by the class of its
-- opcode.
use prevail.Prelude.{
  ℕ, Bool, true, false, ◌&&◌, ◌||◌, Option, none, some, List, [], ◌∷◌, ◌==◌, ◌≡◌, refl,
  if◌then◌else◌, ◌⊎◌, inl, inr,
}
use prevail.Prelude.Result.{ok}
use prevail.Ir.Syntax.{Instruction}
use prevail.Ir.Isa.{EbpfInst, op_lddw_imm}
use prevail.Ir.Platform.{Platform}
use prevail.Ir.Unmarshal.{class_of}
use prevail.Ir.Unmarshal.Alu.{make_alu_op}
use prevail.Ir.Unmarshal.Memory.{make_mem_op}
use prevail.Ir.Unmarshal.Jumps.{make_jmp}
use prevail.Ir.Unmarshal.Sequence.{decode, merge_shifts, is_shift32, is_lsh}

-- At a program counter, the decoder reads the instruction `i` from these slots, whichever slot
-- follows. The first slot is no target that it refuses.
pub data Reads (p : Platform) (insts : List EbpfInst) (pc : ℕ) (i : Instruction)
    : List EbpfInst → Type 0 where
  one :
      (e : EbpfInst)
      → ((next : Option EbpfInst) → decode p insts pc e next ≡ ok (i, false))
      → (e.opcode == 0) ≡ false
      → Reads p insts pc i (e ∷ [])
  two :
      (e e' : EbpfInst)
      → decode p insts pc e (some e') ≡ ok (i, true)
      → (e.opcode == 0) ≡ false
      → Reads p insts pc i (e ∷ e' ∷ [])

module _ (p : Platform) (insts : List EbpfInst) (pc : ℕ) (e : EbpfInst) (i : Instruction) where
  merge_shifts-other :
      (next : Option EbpfInst)
      → is_shift32 e.dst is_lsh i ≡ false
      → merge_shifts p pc e.dst i next ≡ ok (i, false)
  unfolding merge_shifts
  merge_shifts-other none h = refl
  merge_shifts-other (some next) h = rw h refl

  pub decode-alu :
      (is64 : Bool) (next : Option EbpfInst)
      → class_of e.opcode ≡ (if is64 then 7 else 4)
      → make_alu_op p pc e ≡ ok i
      → is_shift32 e.dst is_lsh i ≡ false
      → decode p insts pc e next ≡ ok (i, false)
  unfolding decode
  decode-alu true next hc hm hs = rw (hc, hm) (merge_shifts-other next hs)
  decode-alu false next hc hm hs = rw (hc, hm) (merge_shifts-other next hs)

  pub decode-mem :
      (next : Option EbpfInst)
      → (class_of e.opcode == 0 && e.opcode == op_lddw_imm) ≡ false
      → (class_of e.opcode == 0
          || class_of e.opcode == 1
          || class_of e.opcode == 2
          || class_of e.opcode == 3)
        ≡ true
      → make_mem_op p pc e ≡ ok i
      → decode p insts pc e next ≡ ok (i, false)
  unfolding decode
  decode-mem next ho hc hm = rw (ho, hc, hm) refl

  pub decode-jmp :
      (next : Option EbpfInst)
      → (class_of e.opcode ≡ 5) ⊎ (class_of e.opcode ≡ 6)
      → make_jmp p e insts pc ≡ ok i
      → decode p insts pc e next ≡ ok (i, false)
  unfolding decode
  decode-jmp next (inl hc) hm = rw (hc, hm) refl
  decode-jmp next (inr hc) hm = rw (hc, hm) refl
