-- ===== src/Ir/Unmarshal/Sound/Registers.antt =====
-- The registers and widths of the instructions that src/ir/unmarshal.cpp makes of arithmetic and of
-- memory accesses.
use prevail.Prelude.{
  ℕ, ◌≤◌, ◌<◌, Bool, true, false, ◌&&◌, ◌==◌, ◌≡◌, refl, ap, Option, none, some, List, inl, inr,
  if◌then◌else◌, arith,
}
use prevail.Prelude.Int.{ℤ}
use prevail.Prelude.Result.{IfOk, IfOk-if, yields, throws, IfOk-bind, IfOk-then, IfOk-value}
use prevail.Ir.Syntax.{Value, imm, reg}
use prevail.Ir.Isa.{EbpfInst, mode_abs, mode_ind, mode_mem, mode_atomic}
use prevail.Ir.Platform.{Platform}
use prevail.Ir.Unmarshal.{get_bin_value, has_src_reg, size_of}
use Prim.Native.Nat.{bit_and}
use prevail.Ir.Unmarshal.Alu.{AluOp, make_alu_op, get_alu_op, with_op}
use prevail.Ir.Unmarshal.Memory.{
  make_lddw, lddw_by_src, make_mem_op, get_mem_width, get_mem_is_load, get_atomic_op, by_mode,
  memory, packet_abs, packet_ind, check_packet, atomic, memory_value,
}
use prevail.Ir.Unmarshal.Sound.{
  IsRegister, IsRegisterOption, SoundBin, SoundMem, Sound, IsWidth, checked,
}

get_bin_value-IsRegister :
    (pc : ℕ) (e : EbpfInst) → e.src ≤ 10 → IfOk IsRegister (get_bin_value pc e)
unfolding get_bin_value IsRegister
get_bin_value-IsRegister pc e h =
    IfOk-if (has_src_reg e.opcode) (λ _. checked pc _ λ _. yields h)
      (λ _. checked pc _ λ _. yields tt)

abbrev register_of : Value → ℕ
register_of (reg r) = r
register_of (imm v) = 0

module _ (p : Platform) (insts : List EbpfInst) (pc : ℕ) (e : EbpfInst) where
  with_op-Sound : (o : AluOp) → e.dst < 10 → e.src ≤ 10 → IfOk (Sound insts) (with_op pc e o)
  unfolding with_op Sound SoundBin
  with_op-Sound (AluOp.unary o) hd hs = yields hd
  with_op-Sound (AluOp.binary o) hd hs =
      IfOk-bind (get_bin_value pc e)
        λ v e_v. yields (hd, IfOk-value e_v (get_bin_value-IsRegister pc e hs))

  pub make_alu_op-Sound : IfOk (Sound insts) (make_alu_op p pc e)
  unfolding make_alu_op
  make_alu_op-Sound = checked pc _ λ _. checked pc _ λ below. checked pc _ λ registers.
      IfOk-bind (get_alu_op p pc e) λ o _. with_op-Sound o (ground arith) (ground arith)

  lddw_by_src-Sound : (i j : ℤ) → e.dst ≤ 10 → IfOk (Sound insts) (lddw_by_src pc e i j)
  unfolding lddw_by_src Sound SoundBin IsRegister
  lddw_by_src-Sound i j h =
      IfOk-if (e.src == 0) (λ _. yields (h, tt))
        λ _.
          IfOk-if (e.src == 1) (λ _. checked pc _ λ _. yields h)
            λ _. IfOk-if (e.src == 2) (λ _. yields h) λ _. throws

  pub make_lddw-Sound :
      (i : ℤ) (next : Option EbpfInst) → IfOk (Sound insts) (make_lddw p pc e i next)
  unfolding make_lddw
  make_lddw-Sound i none = checked pc _ λ _. throws
  make_lddw-Sound i (some next) = checked pc _ λ _. checked pc _ λ _.
      checked pc _
        λ _. checked pc _ λ _. checked pc _ λ h. lddw_by_src-Sound i next.imm (ground arith)

  get_mem_width-IsWidth : IfOk IsWidth (get_mem_width e.opcode)
  unfolding get_mem_width
  get_mem_width-IsWidth =
      IfOk-if (size_of e.opcode == 16) (λ _. yields (inl refl))
        λ _.
          IfOk-if (size_of e.opcode == 8) (λ _. yields (inr (inl refl)))
            λ _.
              IfOk-if (size_of e.opcode == 0) (λ _. yields (inr (inr (inl refl))))
                λ _.
                  IfOk-if (size_of e.opcode == 24) (λ _. yields (inr (inr (inr refl)))) λ _. throws

  module _ (hd : e.dst ≤ 10) (hs : e.src ≤ 10) (w : ℤ) (is_ld : Bool) where
    packet_abs-Sound : IfOk (Sound insts) (packet_abs p pc e w is_ld)
    unfolding packet_abs Sound IsRegisterOption
    packet_abs-Sound =
        IfOk-then (check_packet p pc e w is_ld) (checked pc _ λ _. checked pc _ λ _. yields tt)

    packet_ind-Sound : IfOk (Sound insts) (packet_ind p pc e w is_ld)
    unfolding packet_ind Sound IsRegisterOption
    packet_ind-Sound =
        IfOk-then (check_packet p pc e w is_ld) (checked pc _ λ _. checked pc _ λ _. yields hs)

    memory_value-IsRegister : (is_load is_imm : Bool) → IsRegister (memory_value e is_load is_imm)
    unfolding IsRegister
    memory_value-IsRegister true is_imm = hd
    memory_value-IsRegister false true = tt
    memory_value-IsRegister false false = hs

    base-le : (is_load : Bool) → (if is_load then e.src else e.dst) ≤ 10
    base-le true = hs
    base-le false = hd

    written-lt :
        (is_load is_imm : Bool) (r : ℕ)
        → is_load ≡ true
        → (is_load && e.dst == 10) ≡ false
        → memory_value e is_load is_imm ≡ reg r
        → r < 10
    written-lt true is_imm r _ h k = below r (ap register_of k)
      where
        below : (r : ℕ) → e.dst ≡ r → r < 10
        below r same = ground arith
    written-lt false is_imm r l h k = absurd (ground arith)

    memory-Sound : IsWidth w → IfOk (Sound insts) (memory pc e w is_ld)
    unfolding memory Sound SoundMem
    memory-Sound hw = checked pc _ λ _. IfOk-bind (get_mem_is_load e.opcode) λ is_load _.
        let is_imm = bit_and e.opcode 1 == 0 in
        checked pc _ λ writable. checked pc _ λ _. checked pc _ λ _.
          IfOk-if (is_load && is_imm) (λ _. throws)
            λ _. yields (
              hw,
              base-le is_load,
              memory_value-IsRegister is_load is_imm,
              λ l r k. written-lt is_load is_imm r l writable k,
            )

    atomic-Sound : IfOk (Sound insts) (atomic p pc e w)
    unfolding atomic Sound
    atomic-Sound =
        checked pc _
          λ _. checked pc _ λ _. IfOk-bind (get_atomic_op pc e.imm) λ o _. yields (hd, hs)

    by_mode-Sound : (mode : ℕ) → IsWidth w → IfOk (Sound insts) (by_mode p pc e w is_ld mode)
    unfolding by_mode
    by_mode-Sound mode hw =
        IfOk-if (mode == 0) (λ _. throws)
          λ _.
            IfOk-if (mode == mode_abs) (λ _. packet_abs-Sound)
              λ _.
                IfOk-if (mode == mode_ind) (λ _. packet_ind-Sound)
                  λ _.
                    IfOk-if (mode == mode_mem) (λ _. memory-Sound hw)
                      λ _. IfOk-if (mode == mode_atomic) (λ _. atomic-Sound) λ _. throws

  pub make_mem_op-Sound : IfOk (Sound insts) (make_mem_op p pc e)
  unfolding make_mem_op
  make_mem_op-Sound = checked pc _ λ registers. IfOk-bind (get_mem_width e.opcode) λ w e_w.
      checked pc _ λ _.
        by_mode-Sound (ground arith) (ground arith) w _ _ (IfOk-value e_w get_mem_width-IsWidth)
