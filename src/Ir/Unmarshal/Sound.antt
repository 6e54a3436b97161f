-- ===== src/Ir/Unmarshal/Sound.antt =====
-- What the instructions that src/ir/unmarshal.cpp returns satisfy: registers, widths and targets.
mod Registers
mod Targets
pub mod Whole
use prevail.Prelude.{
  ℕ, ◌≤◌, ◌<◌, Bool, true, false, not, ◌&&◌, ◌||◌, ◌==◌, ltb, ◌≡◌, refl, ap, Option, none, some,
  List, [], ◌∷◌, ◌⊎◌, inl, inr, if◌then◌else◌, arith,
}
use prevail.Prelude.Int.{ℤ, pos, eqb_ℤ}
use prevail.Prelude.Lists.{All, get_elem?}
use prevail.Prelude.Result.{
  Result, ok, err, ◌>>=◌, ◌>>◌, IfOk, yields, throws, IfOk-bind, IfOk-value,
}
use prevail.Arith.Number.{narrow, sint}
use prevail.Cfg.Label.{Label}
use prevail.Ir.Syntax.{Value, imm, reg, Bin, Condition, Jmp, Mem, Packet, Atomic, Instruction}
use prevail.Ir.Isa.{EbpfInst, mode_abs, mode_ind, mode_mem, mode_atomic}
use prevail.Ir.Platform.{Platform}
use prevail.Ir.Unmarshal.{throw_if, get_bin_value, has_src_reg, size_of}
use Prim.Native.Nat.{bit_and}
use prevail.Ir.Unmarshal.Alu.{AluOp, make_alu_op, get_alu_op, with_op}
use prevail.Ir.Unmarshal.Memory.{
  make_lddw, lddw_by_src, make_mem_op, get_mem_width, get_mem_is_load, get_atomic_op, by_mode,
  memory, packet_abs, packet_ind, check_packet, atomic, memory_value,
}
use prevail.Ir.Unmarshal.Jumps.{index_label}

unfoldable pub IsRegister : Value → Type 0
IsRegister (imm v) = Unit
IsRegister (reg r) = r ≤ 10

unfoldable pub IsRegisterOption : Option ℕ → Type 0
IsRegisterOption none = Unit
IsRegisterOption (some r) = r ≤ 10

-- A slot that is not the second half of an lddw.
pub record LeadsTo (insts : List EbpfInst) (l : Label) : Type 0 where
  pub index : ℕ
  pub slot : EbpfInst
  pub get_elem?-index : get_elem? insts index ≡ some slot
  pub slot-nonzero : (slot.opcode == 0) ≡ false
  pub label-index : l ≡ index_label (pos index)

unfoldable pub SoundBin : Bin → Type 0
SoundBin b = (if b.lddw then b.dst ≤ 10 else b.dst < 10) × IsRegister b.v

unfoldable pub SoundCond : Option Condition → Type 0
SoundCond none = Unit
SoundCond (some c) = (c.left ≤ 10) × IsRegister c.right

abbrev pub IsWidth : ℤ → Type 0
IsWidth w = (w ≡ pos 1) ⊎ (w ≡ pos 2) ⊎ (w ≡ pos 4) ⊎ (w ≡ pos 8)

unfoldable pub SoundMem : Mem → Type 0
SoundMem m =
    IsWidth m.access.width
    × (m.access.basereg ≤ 10)
    × IsRegister m.value
    × (m.is_load ≡ true → (r : ℕ) → m.value ≡ reg r → r < 10)

-- Registers are at most r10; arithmetic other than the instructions of two slots, byte swaps and
-- loads do not write r10 (an atomic operation that fetches may); a jump or a local call leads to a
-- slot of the program.
unfoldable pub Sound : List EbpfInst → Instruction → Type 0
Sound insts (Instruction.bin b) = SoundBin b
Sound insts (Instruction.un u) = u.dst < 10
Sound insts (Instruction.load_map_fd l) = l.dst ≤ 10
Sound insts (Instruction.load_map_address l) = l.dst ≤ 10
Sound insts (Instruction.call c) = Unit
Sound insts (Instruction.call_local c) = LeadsTo insts c.target
Sound insts (Instruction.callx r) = r ≤ 10
Sound insts (Instruction.exit prefix) = Unit
Sound insts (Instruction.jmp j) = LeadsTo insts j.target × SoundCond j.cond
Sound insts (Instruction.mem m) = SoundMem m
Sound insts (Instruction.packet k) = IsRegisterOption k.regoffset
Sound insts (Instruction.atomic a) = (a.access.basereg ≤ 10) × (a.valreg ≤ 10)
Sound insts _ = ⊥

-- After a test that may throw.
pub checked :
    {A : Type 0} {Q : A → Type 0} (pc : ℕ) (t : Bool) {r : Result A}
    → (t ≡ false → IfOk Q r)
    → IfOk Q (throw_if pc t >> r)
unfolding throw_if
checked pc true h = throws
checked pc false h = h refl
