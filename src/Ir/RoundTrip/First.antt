-- ===== src/Ir/RoundTrip/First.antt =====
-- The first slot that src/ir/marshal.cpp writes for an instruction, which src/ir/unmarshal.cpp takes
-- as the target of a jump if its opcode is not 0.
use prevail.Prelude.{
  ℕ, Bool, true, false, not, ◌==◌, ◌≡◌, refl, some, none, List, [], ◌∷◌, if◌then◌else◌,
}
use prevail.Prelude.Int.{ℤ, pos, eqb_ℤ}
use prevail.Prelude.Result.{ok, IfOk, yields, IfOk-bind, IfOk-bind_bind, IfOk-map, IfOk-value}
use prevail.Arith.Number.{narrow, sint}
use prevail.Cfg.Label.{Label, label_to_offset16, label_to_offset32}
use prevail.Ir.Syntax.{ConditionOp, Value, imm, reg, Instruction}
use prevail.Ir.Isa.{EbpfInst, ebpf_inst, cls_jmp32}
use prevail.Ir.Platform.{Platform, SupportsAll}
use prevail.Ir.Marshal.{marshal_one, of_jump, of_jump_always, of_ja16, condition_op}
use prevail.Ir.RoundTrip.Reads.{Reads, one, two}
use prevail.Ir.RoundTrip.Branches.{condition, condition_op-Fields}
use prevail.Ir.RoundTrip.Jumps.{Target, to}
use prevail.Ir.RoundTrip.WellFormed.{WellFormed, marshal_one-Reads}
use prevail.Ir.RoundTrip.WellFormed.WellFormed.{
  bin_reg, bin_imm, lddw, un, load_map_fd, load_map_address, call, far_call_local, callx, exit,
  goto, branch, load, store, packet, atomic,
}

pub data First : List EbpfInst → Type 0 where
  first : (e : EbpfInst) (es : List EbpfInst) → (e.opcode == 0) ≡ false → First (e ∷ es)

Reads-First :
    {p : Platform} {insts : List EbpfInst} {pc : ℕ} {i : Instruction} (es : List EbpfInst)
    → Reads p insts pc i es
    → First es
Reads-First _ (one e h z) = first e [] z
Reads-First _ (two e e' h z) = first e (e' ∷ []) z

goto-First : (pc : ℕ) (target : Label) → IfOk First (of_jump pc target none)
unfolding of_jump of_jump_always of_ja16
goto-First pc target =
    IfOk-bind (label_to_offset32 pc target) λ i e. either (not (eqb_ℤ i (pos 0))) i
  where
    either :
        (b : Bool) (i : ℤ)
        → IfOk First (if b then ok (ebpf_inst cls_jmp32 0 0 (pos 0) i ∷ []) else of_ja16 pc target)
    either true i = yields (first _ _ refl)
    either false i = IfOk-bind (label_to_offset16 pc target) λ off e. yields (first _ _ refl)

branch-First :
    (pc : ℕ) (target : Label) (o : ConditionOp) (l : ℕ) (v : Value)
    → IfOk First (of_jump pc target (some (condition o l v)))
unfolding of_jump
branch-First pc target o l (reg r) = IfOk-bind (condition_op o) λ k e.
    IfOk-bind (label_to_offset16 pc target)
      λ off e_off. yields (first _ _ (IfOk-value e (condition_op-Fields o)).1.opcode-nonzero)
branch-First pc target o l (imm v) = IfOk-bind (condition_op o) λ k e.
    IfOk-bind (label_to_offset16 pc target) λ off e_off.
      IfOk-bind_bind (narrow (sint 32) (pos v)) _ _
        λ i e_i. yields (first _ _ (IfOk-value e (condition_op-Fields o)).0.opcode-nonzero)

-- The instructions that do not jump are read from their slots in any program.
module _ (p : Platform) (all : SupportsAll p) (T : ℕ → Type 0) where
  still : (pc : ℕ) (i : Instruction) → WellFormed p (Target []) pc i → IfOk First (marshal_one i pc)
  still pc i w = IfOk-map (marshal_one-Reads p all [] (Target []) (λ t h. h) pc i w) Reads-First

  pub marshal_one-First :
      (pc : ℕ) (i : Instruction) → WellFormed p T pc i → IfOk First (marshal_one i pc)
  unfolding marshal_one
  marshal_one-First pc _ (bin_reg o is64 d r hd hr) = still pc _ (bin_reg o is64 d r hd hr)
  marshal_one-First pc _ (bin_imm o is64 d v hd ht hn) = still pc _ (bin_imm o is64 d v hd ht hn)
  marshal_one-First pc _ (lddw d v hd hv) = still pc _ (lddw d v hd hv)
  marshal_one-First pc _ (un o is64 d hd h) = still pc _ (un o is64 d hd h)
  marshal_one-First pc _ (load_map_fd d fd hd) = still pc _ (load_map_fd d fd hd)
  marshal_one-First pc _ (load_map_address d fd off hd) = still pc _ (load_map_address d fd off hd)
  marshal_one-First pc _ (call c usable h) = still pc _ (call c usable h)
  marshal_one-First pc _ (far_call_local t h far) =
      IfOk-bind (label_to_offset32 pc (to t)) λ i e. yields (first _ _ refl)
  marshal_one-First pc _ (callx r h) = still pc _ (callx r h)
  marshal_one-First pc _ exit = still pc _ exit
  marshal_one-First pc _ (goto t h) = goto-First pc (to t)
  marshal_one-First pc _ (branch o l t v h near hl hv) = branch-First pc (to t) o l v
  marshal_one-First pc _ (load w base r off hb hr) = still pc _ (load w base r off hb hr)
  marshal_one-First pc _ (store w base off v hb hv) = still pc _ (store w base off v hb hv)
  marshal_one-First pc _ (packet w i r hr h) = still pc _ (packet w i r hr h)
  marshal_one-First pc _ (atomic o fetch w base r off hb hr h hf) =
      still pc _ (atomic o fetch w base r off hb hr h hf)
