-- ===== src/Tests/Programs.antt =====
-- Instructions and sequences: the theorems at a program of three instructions, and at single ones.
use prevail.Prelude.{◌≡◌, ◌↔◌, refl, true, false, some, none, List, [], ◌∷◌, arith}
use prevail.Prelude.Int.{ℤ, pos, negsuc, ◌≤ℤ◌, ◌+ℤ◌, ◌-ℤ◌}
use prevail.Prelude.Result.{ok}
use prevail.Arith.Number
use prevail.Cfg.Label.{Label, label, label_to_offset16, label_to_offset32}
use prevail.Ir.Syntax.{Instruction, Mem, Condition, ConditionOp, reg}
use prevail.Ir.Isa.{EbpfInst, ebpf_inst}
use prevail.Ir.Assertions.{get_assertions, r10_stack_pointer}
use prevail.Ir.Assertions.Privilege.{Fewer, privileged, unprivileged, get_assertions-Fewer}
use prevail.Ir.Assertions.Accesses.{stack_access_guard}
use prevail.Ir.Marshal.{
  marshal_one, size, make_lddw, of_jump, of_jump_always, of_ja16, condition_op,
}
use prevail.Ir.Marshal.Lengths.{slots}
use prevail.Ir.Marshal.Sequence.{InstructionSeq, marshal, marshal_from, resolve, pc_of}
use prevail.Cfg.Label.{same_label}
use prevail.Ir.Marshal.Layout.{Placed, marshal-Placed}

abbrev at_index : ℤ → Label
at_index i = label i (negsuc 0) []

abbrev load : Instruction
load = Instruction.load_map_fd (record { dst = 1; mapfd = pos 7 })

abbrev back : Instruction
back = Instruction.jmp (record { cond = none; target = at_index (pos 0) })

abbrev leave : Instruction
leave = Instruction.exit []

abbrev program : InstructionSeq
program = (at_index (pos 0), load) ∷ (at_index (pos 1), back) ∷ (at_index (pos 2), leave) ∷ []

abbrev encoded : List EbpfInst
encoded =
    ebpf_inst 24 1 1 (pos 0) (pos 7)
    ∷ ebpf_inst 0 0 0 (pos 0) (pos 0)
    ∷ ebpf_inst 5 0 0 (negsuc 2) (pos 0)
    ∷ ebpf_inst 149 0 0 (pos 0) (pos 0)
    ∷ []

program-encoded : marshal program ≡ ok encoded
unfolding marshal marshal_from resolve pc_of same_label size marshal_one make_lddw of_jump
    of_jump_always of_ja16 label_to_offset16 label_to_offset32 Number.narrow Number.fits ◌-ℤ◌
program-encoded = refl

marshal-Placed_example : Placed program ((at_index (pos 0), load) ∷ []) back 0 encoded
marshal-Placed_example =
    marshal-Placed ((at_index (pos 0), load) ∷ []) (at_index (pos 1)) back
      ((at_index (pos 2), leave) ∷ []) encoded program-encoded

back-found : same_label (at_index (pos 1)) (at_index (pos 1)) ≡ true
unfolding same_label
back-found = refl

back-last : same_label (at_index (pos 1)) (at_index (pos 2)) ≡ false
unfolding same_label
back-last = refl

load-slots : slots load ≡ size load
unfolding slots size
load-slots = refl

back-Placed : Placed program ((at_index (pos 0), load) ∷ []) back 0 encoded
back-Placed =
    marshal-Placed ((at_index (pos 0), load) ∷ []) (at_index (pos 1)) back
      ((at_index (pos 2), leave) ∷ []) encoded program-encoded

load-encoded :
    marshal_one load 0
    ≡ ok (ebpf_inst 24 1 1 (pos 0) (pos 7) ∷ ebpf_inst 0 0 0 (pos 0) (pos 0) ∷ [])
unfolding marshal_one make_lddw
load-encoded = refl

back-jump : of_jump 2 (at_index (pos 0)) none ≡ ok (ebpf_inst 5 0 0 (negsuc 2) (pos 0) ∷ [])
unfolding of_jump of_jump_always of_ja16 label_to_offset16 label_to_offset32 Number.narrow
    Number.fits ◌-ℤ◌
back-jump = refl

abbrev when_equal : Condition
when_equal = record { op = ConditionOp.eq; left = 3; right = reg 4; is64 = true }

when_equal-jump :
    of_jump 2 (at_index (pos 9)) (some when_equal) ≡ ok (ebpf_inst 29 3 4 (pos 6) (pos 0) ∷ [])
unfolding of_jump condition_op label_to_offset16 Number.narrow Number.fits ◌-ℤ◌
when_equal-jump = refl

when_equal-far :
    of_jump 2 (at_index (pos 40000)) (some when_equal) ≡ ok (ebpf_inst 29 3 4 (pos 0) (pos 0) ∷ [])
unfolding of_jump condition_op label_to_offset16 Number.narrow Number.fits ◌-ℤ◌
when_equal-far = refl

abbrev store : Mem
store = record {
  access = record { width = pos 8; basereg = r10_stack_pointer; offset = negsuc 15 };
  value = reg 1;
  is_load = false;
}

get_assertions-Fewer_example :
    Fewer
      (get_assertions (privileged (some (at_index (pos 1)))) (Instruction.mem store))
      (get_assertions (unprivileged (some (at_index (pos 1)))) (Instruction.mem store))
get_assertions-Fewer_example =
    get_assertions-Fewer (some (at_index (pos 1))) (Instruction.mem store)

stack_access_guard_example :
    (get_assertions (privileged (some (at_index (pos 1)))) (Instruction.mem store) ≡ ok [])
    ↔ ((negsuc 511 ≤ℤ negsuc 15) × (negsuc 15 +ℤ pos 8 ≤ℤ pos 0))
unfolding ◌+ℤ◌
stack_access_guard_example =
    stack_access_guard (privileged (some (at_index (pos 1)))) store 8 refl refl (omega arith)
      (omega arith) (omega arith)
