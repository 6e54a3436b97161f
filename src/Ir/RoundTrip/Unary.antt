-- ===== src/Ir/RoundTrip/Unary.antt =====
-- `makeAluOp` of src/ir/unmarshal.cpp on what the encoder makes of `Un`.
use prevail.Prelude.{
  ℕ, ◌<◌, Bool, true, false, ◌==◌, ltb, ◌≡◌, refl, ap, if◌then◌else◌, List, [], ◌∷◌, arith,
}
use prevail.Prelude.Int.{ℤ, pos}
use prevail.Prelude.Result.{ok, IfOk, yields}
use prevail.Ir.Syntax.{UnOp, Instruction}
use prevail.Ir.Isa.{EbpfInst, ebpf_inst, cls_alu, cls_alu64}
use prevail.Ir.Platform.{Platform, Group, SupportsAll}
use prevail.Ir.Marshal.{of_un_op, imm_endian}
use prevail.Ir.Unmarshal.{throw_if, class_of}
use prevail.Ir.Unmarshal.Alu.{
  AluOp, base, make_alu_op, get_alu_op, with_op, op_by_bits, plain_op, neg_op, end_op, end_width,
}
use prevail.Ir.Unmarshal.Sequence.{is_shift32}
use prevail.Ir.RoundTrip.{slot, ebpf_inst-slot}
use prevail.Ir.RoundTrip.Reads.{Reads, one, decode-alu}

-- The classes that a unary operation is encoded in.
unfoldable pub HasClass : UnOp → Bool → Type 0
HasClass UnOp.neg is64 = Unit
HasClass UnOp.swap16 is64 = is64 ≡ true
HasClass UnOp.swap32 is64 = is64 ≡ true
HasClass UnOp.swap64 is64 = is64 ≡ true
HasClass o is64 = is64 ≡ false

module _ (p : Platform) (all : SupportsAll p) (insts : List EbpfInst) (pc d : ℕ) (hd : d < 10) where
  make_alu_op-un :
      (o : UnOp) (is64 : Bool) (opcode : ℕ) (i : ℤ)
      → class_of opcode ≡ (if is64 then cls_alu64 else cls_alu)
      → get_alu_op p pc (slot opcode d 0 (pos 0) i) ≡ ok (AluOp.unary o)
      → make_alu_op p pc (slot opcode d 0 (pos 0) i)
        ≡ ok (Instruction.un (record { op = o; dst = d; is64 = is64 }))
  unfolding make_alu_op with_op throw_if
  make_alu_op-un o is64 opcode i hc hg =
      let below : (d == 10) ≡ false = ground arith in
      let registers : ltb 10 d ≡ false = ground arith in
      let class-alu64 : (class_of opcode == cls_alu64) ≡ is64 = ground arith in
      rw (class-alu64, all (base is64), below, registers, hg)
        (ap (λ t. ok (Instruction.un (record { op = o; dst = d; is64 = t }))) class-alu64)

  un-Reads :
      (o : UnOp) (is64 : Bool) (opcode : ℕ) (i : ℤ)
      → class_of opcode ≡ (if is64 then cls_alu64 else cls_alu)
      → get_alu_op p pc (slot opcode d 0 (pos 0) i) ≡ ok (AluOp.unary o)
      → (opcode == 0) ≡ false
      → Reads p insts pc
          (Instruction.un (record { op = o; dst = d; is64 = is64 }))
          (ebpf_inst opcode d 0 (pos 0) i ∷ [])
  unfolding is_shift32
  un-Reads o is64 opcode i hc hg hz =
      rw (ebpf_inst-slot opcode d 0 (pos 0) i (omega (arith, hd)) (omega arith)) (
        one _
          (λ next.
            decode-alu p insts pc _ _ is64 next hc (make_alu_op-un o is64 opcode i hc hg) refl)
          hz)

  pub of_un_op-Reads :
      (o : UnOp) (is64 : Bool)
      → HasClass o is64
      → IfOk
          (Reads p insts pc (Instruction.un (record { op = o; dst = d; is64 = is64 })))
          (of_un_op d is64 o)
  unfolding of_un_op imm_endian HasClass get_alu_op op_by_bits plain_op neg_op end_op end_width
      throw_if
  of_un_op-Reads UnOp.neg true h = yields (un-Reads UnOp.neg true _ _ refl refl refl)
  of_un_op-Reads UnOp.neg false h = yields (un-Reads UnOp.neg false _ _ refl refl refl)
  of_un_op-Reads UnOp.le16 is64 h =
      rw h (yields (un-Reads UnOp.le16 false _ _ refl (rw (all Group.base32) refl) refl))
  of_un_op-Reads UnOp.le32 is64 h =
      rw h (yields (un-Reads UnOp.le32 false _ _ refl (rw (all Group.base32) refl) refl))
  of_un_op-Reads UnOp.le64 is64 h =
      rw h (yields (un-Reads UnOp.le64 false _ _ refl (rw (all Group.base64) refl) refl))
  of_un_op-Reads UnOp.be16 is64 h =
      rw h (yields (un-Reads UnOp.be16 false _ _ refl (rw (all Group.base32) refl) refl))
  of_un_op-Reads UnOp.be32 is64 h =
      rw h (yields (un-Reads UnOp.be32 false _ _ refl (rw (all Group.base32) refl) refl))
  of_un_op-Reads UnOp.be64 is64 h =
      rw h (yields (un-Reads UnOp.be64 false _ _ refl (rw (all Group.base64) refl) refl))
  of_un_op-Reads UnOp.swap16 is64 h =
      rw h (yields (un-Reads UnOp.swap16 true _ _ refl (rw (all Group.base32) refl) refl))
  of_un_op-Reads UnOp.swap32 is64 h =
      rw h (yields (un-Reads UnOp.swap32 true _ _ refl (rw (all Group.base32) refl) refl))
  of_un_op-Reads UnOp.swap64 is64 h =
      rw h (yields (un-Reads UnOp.swap64 true _ _ refl (rw (all Group.base64) refl) refl))
