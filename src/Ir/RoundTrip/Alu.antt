-- ===== src/Ir/RoundTrip/Alu.antt =====
-- `makeAluOp` of src/ir/unmarshal.cpp on what the encoder makes of `Bin` and `Un`.
use prevail.Prelude.{
  ℕ, ◌*◌, ◌^◌, ◌<◌, ◌≤◌, Bool, true, false, ◌==◌, ◌||◌, ltb, ◌≡◌, refl, ap, ◌∙◌, if◌then◌else◌,
  List, [], ◌∷◌, arith,
}
use prevail.Prelude.Int.{ℤ, pos}
use prevail.Prelude.Result.{ok, IfOk, yields, IfOk-bind_bind, IfOk-value}
use prevail.Arith.Number.{narrow, sint}
use prevail.Ir.Syntax.{BinOp, Bin, Value, imm, reg, Instruction}
use prevail.Ir.Isa.{EbpfInst, ebpf_inst, cls_alu, cls_alu64, src_reg}
use prevail.Ir.Platform.{Platform, SupportsAll}
use prevail.Ir.Marshal.{bin_op, bin_offset, of_alu}
use prevail.Ir.Unmarshal.{throw_if, class_of, alu_op_of, has_src_reg, get_bin_value, sign_extend}
use Prim.Native.Nat.{bit_or}
use prevail.Ir.RoundTrip.{slot, ebpf_inst-slot, extend-narrow}
use prevail.Ir.RoundTrip.Reads.{Reads, one, decode-alu}
use prevail.Ir.Unmarshal.Sequence.{is_shift32, is_lsh, is_imm_32}
use prevail.Ir.Unmarshal.Alu.{
  base, make_alu_op, get_alu_op, with_op, AluOp, op_by_bits, division_op, mov_op, mul_op, plain_op,
  divmul,
}

-- A sign-extending move has a register operand.
unfoldable pub TakesSource : BinOp → Bool → Type 0
TakesSource BinOp.movsx8 s = s ≡ true
TakesSource BinOp.movsx16 s = s ≡ true
TakesSource BinOp.movsx32 s = s ≡ true
TakesSource _ s = Unit

abbrev pub alu_opcode : BinOp → Bool → ℕ
alu_opcode o is64 = bit_or (if is64 then cls_alu64 else cls_alu) (bin_op o * 2 ^ 4)

pub record Fields (opcode : ℕ) (is64 : Bool) (bits : ℕ) (s : Bool) : Type 0 where
  class_of-alu : class_of opcode ≡ (if is64 then cls_alu64 else cls_alu)
  class-alu64 : (class_of opcode == cls_alu64) ≡ is64
  alu_op_of-bits : alu_op_of opcode ≡ bits
  has_src_reg-s : has_src_reg opcode ≡ s
  pub opcode-nonzero : (opcode == 0) ≡ false

imm-Fields : (o : BinOp) (is64 : Bool) → Fields (alu_opcode o is64) is64 (bin_op o * 2 ^ 4) false
unfolding bin_op
imm-Fields o is64 = ground arith

reg-Fields :
    (o : BinOp) (is64 : Bool)
    → Fields (bit_or (alu_opcode o is64) src_reg) is64 (bin_op o * 2 ^ 4) true
unfolding bin_op
reg-Fields o is64 = ground arith

module _ (p : Platform) (all : SupportsAll p) (pc : ℕ) where
  op_by_bits-bin_op :
      (o : BinOp) (is64 s : Bool) (opcode d src : ℕ) (i : ℤ)
      → TakesSource o s
      → op_by_bits p pc is64 (bin_op o * 2 ^ 4) s (slot opcode d src (bin_offset o) i)
        ≡ ok (AluOp.binary o)
  unfolding op_by_bits bin_op bin_offset division_op mov_op mul_op plain_op throw_if TakesSource
  op_by_bits-bin_op BinOp.mov is64 s opcode d src i h = refl
  op_by_bits-bin_op BinOp.add is64 s opcode d src i h = refl
  op_by_bits-bin_op BinOp.sub is64 s opcode d src i h = refl
  op_by_bits-bin_op BinOp.mul is64 s opcode d src i h = rw (all (divmul is64)) refl
  op_by_bits-bin_op BinOp.udiv is64 s opcode d src i h = rw (all (divmul is64)) refl
  op_by_bits-bin_op BinOp.umod is64 s opcode d src i h = rw (all (divmul is64)) refl
  op_by_bits-bin_op BinOp.or is64 s opcode d src i h = refl
  op_by_bits-bin_op BinOp.and is64 s opcode d src i h = refl
  op_by_bits-bin_op BinOp.lsh is64 s opcode d src i h = refl
  op_by_bits-bin_op BinOp.rsh is64 s opcode d src i h = refl
  op_by_bits-bin_op BinOp.arsh is64 s opcode d src i h = refl
  op_by_bits-bin_op BinOp.xor is64 s opcode d src i h = refl
  op_by_bits-bin_op BinOp.sdiv is64 s opcode d src i h = rw (all (divmul is64)) refl
  op_by_bits-bin_op BinOp.smod is64 s opcode d src i h = rw (all (divmul is64)) refl
  op_by_bits-bin_op BinOp.movsx8 is64 s opcode d src i h = rw h refl
  op_by_bits-bin_op BinOp.movsx16 is64 s opcode d src i h = rw h refl
  op_by_bits-bin_op BinOp.movsx32 is64 s opcode d src i h = rw h refl

  make_alu_op-bin :
      (o : BinOp) (is64 s : Bool) (opcode d src : ℕ) (i : ℤ) (v : Value)
      → Fields opcode is64 (bin_op o * 2 ^ 4) s
      → d < 10
      → src ≤ 10
      → TakesSource o s
      → get_bin_value pc (slot opcode d src (bin_offset o) i) ≡ ok v
      → make_alu_op p pc (slot opcode d src (bin_offset o) i)
        ≡ ok (Instruction.bin (record { op = o; dst = d; v = v; is64 = is64; lddw = false }))
  unfolding make_alu_op get_alu_op with_op throw_if
  make_alu_op-bin o is64 s opcode d src i v f hd hs ht hv =
      let below : (d == 10) ≡ false = ground arith in
      let registers : (ltb 10 d || ltb 10 src) ≡ false = ground arith in
      rw
        (
          f.class-alu64,
          f.alu_op_of-bits,
          f.has_src_reg-s,
          all (base is64),
          below,
          registers,
          op_by_bits-bin_op o is64 s opcode d src i ht,
          hv,
        )
        (ap (λ t. ok (Instruction.bin (record { op = o; dst = d; v = v; is64 = t; lddw = false })))
          f.class-alu64)

  imm-value :
      (opcode d : ℕ) (off i : ℤ)
      → has_src_reg opcode ≡ false
      → get_bin_value pc (slot opcode d 0 off i) ≡ ok (imm (sign_extend i))
  unfolding get_bin_value throw_if
  imm-value opcode d off i h = rw h refl

  reg-value :
      (opcode d src : ℕ) (off : ℤ)
      → has_src_reg opcode ≡ true
      → get_bin_value pc (slot opcode d src off (pos 0)) ≡ ok (reg src)
  unfolding get_bin_value throw_if
  reg-value opcode d src off h = rw h refl

abbrev pub alu_bin : BinOp → ℕ → Value → Bool → Bin
alu_bin o d v is64 = record { op = o; dst = d; v = v; is64 = is64; lddw = false }

takes-source : (o : BinOp) → TakesSource o true
unfolding TakesSource
takes-source o = ground arith

register-not-shift :
    (o : BinOp) (d r : ℕ) (is64 : Bool)
    → is_shift32 d is_lsh (Instruction.bin (alu_bin o d (reg r) is64)) ≡ false
unfolding is_shift32 is_lsh is_imm_32
register-not-shift o d r is64 = ground arith

module _ (p : Platform) (all : SupportsAll p) (insts : List EbpfInst) (pc : ℕ) where
  alu-Reads :
      (o : BinOp) (is64 s : Bool) (opcode d src : ℕ) (i : ℤ) (v : Value)
      → Fields opcode is64 (bin_op o * 2 ^ 4) s
      → d < 10
      → src ≤ 10
      → TakesSource o s
      → get_bin_value pc (slot opcode d src (bin_offset o) i) ≡ ok v
      → is_shift32 d is_lsh (Instruction.bin (alu_bin o d v is64)) ≡ false
      → Reads p insts pc
          (Instruction.bin (alu_bin o d v is64))
          (ebpf_inst opcode d src (bin_offset o) i ∷ [])
  alu-Reads o is64 s opcode d src i v f hd hs ht hv hn =
      rw (ebpf_inst-slot opcode d src (bin_offset o) i (omega (arith, hd)) hs) (
        one _
          (λ next.
            decode-alu p insts pc _ _ is64 next f.class_of-alu
              (make_alu_op-bin p all pc o is64 s opcode d src i v f hd hs ht hv) hn)
          f.opcode-nonzero)

  -- The encoding of a register operand or of an immediate.
  pub of_alu-reg-Reads :
      (o : BinOp) (is64 : Bool) (d r : ℕ)
      → d < 10
      → r ≤ 10
      → IfOk
          (Reads p insts pc (Instruction.bin (alu_bin o d (reg r) is64)))
          (of_alu (alu_bin o d (reg r) is64))
  unfolding of_alu
  of_alu-reg-Reads o is64 d r hd hr = yields (
      alu-Reads o is64 true _ d r (pos 0) (reg r) (reg-Fields o is64) hd hr (takes-source o)
        (reg-value p all pc _ d r _ (reg-Fields o is64).has_src_reg-s)
        (register-not-shift o d r is64))

  pub of_alu-imm-Reads :
      (o : BinOp) (is64 : Bool) (d v : ℕ)
      → d < 10
      → TakesSource o false
      → is_shift32 d is_lsh (Instruction.bin (alu_bin o d (imm v) is64)) ≡ false
      → IfOk
          (Reads p insts pc (Instruction.bin (alu_bin o d (imm v) is64)))
          (of_alu (alu_bin o d (imm v) is64))
  unfolding of_alu
  of_alu-imm-Reads o is64 d v hd ht hn = IfOk-bind_bind (narrow (sint 32) (pos v)) _ _ λ i e.
      yields (
        alu-Reads o is64 false _ d 0 i (imm v) (imm-Fields o is64) hd (omega arith) ht
          (imm-value p all pc _ d _ i (imm-Fields o is64).has_src_reg-s
            ∙ ap (λ w. ok (imm w)) ((IfOk-value e (extend-narrow v)).0))
          hn)
