-- ===== src/Ir/Marshal/Jumps.antt =====
-- The displacement that src/ir/marshal.cpp encodes in a jump, against the one that its target and
-- its program counter ask for.
use prevail.Prelude.{
  ℕ, ◌*◌, ◌^◌, ap, ◌∙◌, ◌≡◌, refl, true, false, some, Bool, List, [], ◌∷◌, ◌==◌, if◌then◌else◌,
  arith,
}
use prevail.Prelude.Int.{ℤ, pos, eqb_ℤ}
use prevail.Prelude.Result.{ok, err, no_fit, IfOk, yields, throws, IfOk-bind, IfOk-value}
use prevail.Arith.Number.{narrow, sint, fits}
use prevail.Cfg.Label.{Label, label_to_offset16, jump_offset, is16}
use prevail.Ir.Syntax.{Condition, ConditionOp, Value, imm, reg}
use prevail.Ir.Isa.{EbpfInst, cls_jmp, cls_jmp32, src_reg}
use mathlib.Core.Path.{subst}
use Prim.Native.Nat.{bit_or}
use prevail.Ir.Marshal.{of_jump, operand, condition_op}

-- The displacement that a machine reads: the immediate of JA32, else the offset.
unfoldable pub displacement : EbpfInst → ℤ
displacement e = if e.opcode == cls_jmp32 then e.imm else e.offset

-- A list of one instruction with this displacement.
pub data Leads (d : ℤ) : List EbpfInst → Type 0 where
  leads : (e : EbpfInst) → displacement e ≡ d → Leads d (e ∷ [])

pub narrow-value : (w : ℕ) (n : ℤ) → IfOk (λ m. m ≡ n) (narrow (sint w) n)
unfolding narrow
narrow-value w n = if-value (fits (sint w) n)
  where
    if-value : (t : Bool) → IfOk (λ m. m ≡ n) (if t then ok n else err no_fit)
    if-value true = yields refl
    if-value false = throws

pub label_to_offset16-value :
    (pc : ℕ) (l : Label)
    → IfOk
        (λ off. off ≡ (if is16 (jump_offset pc l) then jump_offset pc l else pos 0))
        (label_to_offset16 pc l)
unfolding label_to_offset16
label_to_offset16-value pc l = narrow-value 16 _

pub far : (d : ℤ) → is16 d ≡ false → eqb_ℤ d (pos 0) ≡ false
far d h = ground arith

-- A conditional jump's opcode is not JA32, with a register or an immediate.
abbrev IsOther : ℕ → Type 0
IsOther o =
    (bit_or cls_jmp (o * 2 ^ 4) == cls_jmp32 ≡ false)
    × (bit_or (bit_or cls_jmp (o * 2 ^ 4)) src_reg == cls_jmp32 ≡ false)

condition_op-IsOther : (o : ConditionOp) → IfOk IsOther (condition_op o)
unfolding condition_op
condition_op-IsOther ConditionOp.eq = yields (refl, refl)
condition_op-IsOther ConditionOp.ne = yields (refl, refl)
condition_op-IsOther ConditionOp.set = yields (refl, refl)
condition_op-IsOther ConditionOp.nset = throws
condition_op-IsOther ConditionOp.lt = yields (refl, refl)
condition_op-IsOther ConditionOp.le = yields (refl, refl)
condition_op-IsOther ConditionOp.gt = yields (refl, refl)
condition_op-IsOther ConditionOp.ge = yields (refl, refl)
condition_op-IsOther ConditionOp.slt = yields (refl, refl)
condition_op-IsOther ConditionOp.sle = yields (refl, refl)
condition_op-IsOther ConditionOp.sgt = yields (refl, refl)
condition_op-IsOther ConditionOp.sge = yields (refl, refl)

operand-opcode :
    (o : ℕ) (v : Value)
    → IsOther o
    → IfOk (λ p. p.0 == cls_jmp32 ≡ false) (operand (bit_or cls_jmp (o * 2 ^ 4)) v)
operand-opcode o (reg r) h = yields h.1
operand-opcode o (imm v) h = IfOk-bind (narrow (sint 32) (pos v)) λ i e. yields h.0

conditional :
    (pc : ℕ) (target : Label) (c : Condition)
    → IfOk
        (Leads (if is16 (jump_offset pc target) then jump_offset pc target else pos 0))
        (of_jump pc target (some c))
unfolding of_jump displacement
conditional pc target c = IfOk-bind (condition_op c.op) λ o e_o.
    IfOk-bind (label_to_offset16 pc target) λ off e. IfOk-bind (operand _ c.right) λ p e_p. yields (
      leads _ (
        ap (λ t. if t then p.2 else off)
          (IfOk-value e_p (operand-opcode o c.right (IfOk-value e_o (condition_op-IsOther c.op))))
        ∙ IfOk-value e (label_to_offset16-value pc target)))

-- A conditional jump whose displacement fits in 16 bits, where it is encoded, takes one slot with
-- that displacement.
jump_if-Leads :
    (pc : ℕ) (target : Label) (c : Condition) (es : List EbpfInst)
    → is16 (jump_offset pc target) ≡ true
    → of_jump pc target (some c) ≡ ok es
    → Leads (jump_offset pc target) es
jump_if-Leads pc target c es h e =
    subst (λ t. Leads (if t then jump_offset pc target else pos 0) es) h
      (IfOk-value e (conditional pc target c))
