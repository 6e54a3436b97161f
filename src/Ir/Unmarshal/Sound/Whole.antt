-- ===== src/Ir/Unmarshal/Sound/Whole.antt =====
-- What every instruction of a program that src/ir/unmarshal.cpp returns satisfies.
use prevail.Prelude.{
  ℕ, suc, ◌<◌, Bool, true, false, not, ◌&&◌, ◌||◌, ◌==◌, ◌≡◌, Option, none, some, List, [], ◌∷◌,
  if◌then◌else◌, arith,
}
use prevail.Prelude.Lists.{All}
use prevail.Prelude.Int.{pos}
use prevail.Prelude.Result.{
  Result, ok, err, ◌>>=◌, IfOk, IfOk-if, yields, throws, IfOk-bind, IfOk-value,
}
use prevail.Arith.Number.{narrow, sint}
use prevail.Cfg.Label.{Label}
use prevail.Ir.Syntax.{BinOp, Instruction}
use prevail.Ir.Isa.{
  EbpfInst, cls_ld, cls_ldx, cls_st, cls_stx, cls_alu, cls_alu64, cls_jmp, cls_jmp32, op_lddw_imm,
}
use prevail.Ir.Platform.{Platform}
use prevail.Ir.Marshal.Sequence.{InstructionSeq}
use prevail.Ir.Unmarshal.{class_of}
use prevail.Ir.Unmarshal.Alu.{make_alu_op}
use prevail.Ir.Unmarshal.Jumps.{index_label}
use prevail.Ir.Unmarshal.Sequence.{
  decode, merge_shifts, merge_with, merged, is_shift32, is_lsh, unmarshal_from, unmarshal_insts,
}
use prevail.Ir.Unmarshal.Sound.{Sound, SoundBin, IsRegister}
use prevail.Ir.Unmarshal.Sound.Registers.{make_alu_op-Sound, make_mem_op-Sound, make_lddw-Sound}
use prevail.Ir.Unmarshal.Sound.Targets.{make_jmp-Sound}

module _ (p : Platform) (insts : List EbpfInst) (pc : ℕ) where
  abbrev SoundStep : Instruction × Bool → Type 0
  SoundStep step = Sound insts step.0

  shift-dst :
      (d : ℕ) (is_op : BinOp → Bool) (i : Instruction)
      → is_shift32 d is_op i ≡ true
      → Sound insts i
      → d < 10
  unfolding is_shift32 Sound SoundBin
  shift-dst d is_op i h s = ground arith

  chosen-Sound :
      (d : ℕ) (i : Instruction) (rsh arsh : Bool)
      → d < 10
      → Sound insts i
      → SoundStep (
          if rsh
          then (merged BinOp.mov d false, true)
          else (if arsh then (merged BinOp.movsx32 d true, true) else (i, false)))
  unfolding merged Sound SoundBin IsRegister
  chosen-Sound d i true arsh hd hi = (hd, omega (arith, hd))
  chosen-Sound d i false true hd hi = (hd, omega (arith, hd))
  chosen-Sound d i false false hd hi = hi

  merge_shifts-Sound :
      (d : ℕ) (i : Instruction) (next : Option EbpfInst)
      → Sound insts i
      → IfOk SoundStep (merge_shifts p pc d i next)
  unfolding merge_shifts merge_with
  merge_shifts-Sound d i none hi = yields hi
  merge_shifts-Sound d i (some next) hi =
      IfOk-if (not (is_shift32 d is_lsh i) || not (class_of next.opcode == cls_alu64))
        (λ _. yields hi)
        λ shifted.
          IfOk-bind (make_alu_op p (suc pc) next)
            λ j _. yields (chosen-Sound d i _ _ (shift-dst d is_lsh i (ground arith) hi) hi)

  alone-Sound :
      (r : Result Instruction) (skip : Bool)
      → IfOk (Sound insts) r
      → IfOk SoundStep (do i ← r; ok (i, skip))
  alone-Sound (ok i) skip (yields h) = yields h
  alone-Sound (err e) skip h = throws

  decode-Sound : (e : EbpfInst) (next : Option EbpfInst) → IfOk SoundStep (decode p insts pc e next)
  unfolding decode
  decode-Sound e next =
      let c = class_of e.opcode in
      IfOk-if (c == cls_ld && e.opcode == op_lddw_imm)
        (λ _. alone-Sound _ true (make_lddw-Sound p insts pc e _ next))
        λ _.
          IfOk-if (c == cls_ld || c == cls_ldx || c == cls_st || c == cls_stx)
            (λ _. alone-Sound _ false (make_mem_op-Sound p insts pc e))
            λ _.
              IfOk-if (c == cls_alu || c == cls_alu64)
                (λ _. IfOk-bind (make_alu_op p pc e) λ i e_i.
                  merge_shifts-Sound e.dst i next (IfOk-value e_i (make_alu_op-Sound p insts pc e)))
                λ _.
                  IfOk-if (c == cls_jmp32 || c == cls_jmp)
                    (λ _. alone-Sound _ false (make_jmp-Sound p insts pc e)) λ _. throws

abbrev pub SoundEntry : List EbpfInst → Label × Instruction → Type 0
SoundEntry insts entry = Sound insts entry.1

-- The rest of the program, after one or two slots.
rest-Sound :
    (insts : List EbpfInst) (l : Label) (i : Instruction) (skip : Bool)
    (r s : Result InstructionSeq)
    → Sound insts i
    → IfOk (All (SoundEntry insts)) r
    → IfOk (All (SoundEntry insts)) s
    → IfOk
        (All (SoundEntry insts))
        (do more ← elim skip [ true ↦ r | false ↦ s ]; ok ((l, i) ∷ more))
rest-Sound insts l i true (ok more) s h (yields k) k' = yields (h, k)
rest-Sound insts l i true (err e) s h k k' = throws
rest-Sound insts l i false r (ok more) h k (yields k') = yields (h, k')
rest-Sound insts l i false r (err e) h k k' = throws

module _ (p : Platform) (insts : List EbpfInst) where
  unmarshal_from-Sound :
      (pc : ℕ) (rest : List EbpfInst)
      → IfOk (All (SoundEntry insts)) (unmarshal_from p insts pc rest)
  unfolding unmarshal_from
  unmarshal_from-Sound pc [] = yields tt
  unmarshal_from-Sound pc (e ∷ []) = IfOk-bind (decode p insts pc e none) λ step e_s.
      IfOk-bind (narrow (sint 32) (pos pc))
        λ at _. yields (IfOk-value e_s (decode-Sound p insts pc e none), tt)
  unmarshal_from-Sound pc (e ∷ next ∷ rest) =
      IfOk-bind (decode p insts pc e (some next)) λ step e_s.
        IfOk-bind (narrow (sint 32) (pos pc)) λ at _.
          rest-Sound insts (index_label at) step.0 step.1 _ _
            (IfOk-value e_s (decode-Sound p insts pc e (some next)))
            (unmarshal_from-Sound (suc (suc pc)) rest) (unmarshal_from-Sound (suc pc) (next ∷ rest))

-- Every instruction of a program that the decoder returns has registers up to r10; arithmetic and
-- byte swaps of one slot and loads have a destination other than r10; and jumps and calls lead
-- only to slots of the program that are not the second half of an lddw. Instructions of two
-- slots, and the register operand of an atomic operation, may name r10.
pub unmarshal_insts-Sound :
    (p : Platform) (insts : List EbpfInst) (prog : InstructionSeq)
    → unmarshal_insts p insts ≡ ok prog
    → All (SoundEntry insts) prog
unfolding unmarshal_insts
unmarshal_insts-Sound p insts prog e = IfOk-value e (decoded insts)
  where
    decoded : (all : List EbpfInst) → IfOk (All (SoundEntry all)) (unmarshal_insts p all)
    decoded [] = throws
    decoded (inst ∷ rest) = unmarshal_from-Sound p (inst ∷ rest) 0 (inst ∷ rest)
