-- ===== src/Tests/Decoder.antt =====
-- The decoder: the theorems at a program of three instructions, and at single ones.
use prevail.Prelude.{◌≡◌, refl, true, false, none, inl, List, [], ◌∷◌, arith}
use prevail.Prelude.Int.{pos, negsuc, ◌-ℤ◌, ◌+ℤ◌, mod_ℕ}
use prevail.Prelude.Result.{ok, IfOk}
use prevail.Prelude.Lists.{get_elem?, All}
use prevail.Arith.Number
use prevail.Cfg.Label.{label_to_offset16, label_to_offset32}
use prevail.Ir.Syntax.{Instruction, Call, ArgSingleKind, ArgPairKind}
use prevail.Ir.Isa.{EbpfInst, ebpf_inst}
use prevail.Ir.Platform.{Platform, SupportsAll, ReturnType, ArgumentType}
use prevail.Ir.Marshal.{marshal_one, size, make_lddw, of_jump, of_jump_always, of_ja16}
use prevail.Ir.Marshal.Sequence.{InstructionSeq, marshal, marshal_from, resolve, pc_of}
use prevail.Cfg.Label.{same_label}
use prevail.Ir.Unmarshal.{throw_if}
use prevail.Ir.Unmarshal.Memory
use prevail.Ir.Unmarshal.Memory.{lddw_by_src}
use prevail.Ir.Unmarshal.Calls.{
  make_call, add_arguments, by_role, role_of, push_single, push_pair, to_arg_single_kind,
  to_arg_pair_kind, is_const_size, is_const_size_or_zero, is_unsupported, is_map_value_or_null,
}
use prevail.Ir.Unmarshal.Jumps.{
  make_jmp, check_ja, make_jump, get_jmp_op, get_jump_target, label_of_slot, jump_cond, make_exit,
}
use prevail.Ir.Unmarshal.Sequence.{unmarshal, unmarshal_insts, unmarshal_from, decode}
use prevail.Ir.Unmarshal.Sound.Whole.{SoundEntry, unmarshal_insts-Sound}
use prevail.Ir.Unmarshal.Arguments.{Passed, make_call-Passed}
use prevail.Ir.RoundTrip.Reads.{Reads}
use prevail.Ir.RoundTrip.Jumps.{to, to_jump, Target}
use prevail.Ir.RoundTrip.Calls.{to_call_local, near_call_local-Reads}
use prevail.Ir.RoundTrip.WellFormed.WellFormed.{load_map_fd, goto, exit}
use prevail.Ir.RoundTrip.Labels.{here, Numbered, done, next}
use prevail.Ir.RoundTrip.Program.{StartsIn, unmarshal-marshal}

abbrev platform : Platform
platform = record {
  supports_group = λ g. true;
  is_helper_usable = λ i. true;
  get_helper_prototype = λ i. record {
    name = [];
    return_type = ReturnType.integer;
    argument_type_0 = ArgumentType.ptr_to_map;
    argument_type_1 = ArgumentType.ptr_to_readable_mem;
    argument_type_2 = ArgumentType.const_size;
    argument_type_3 = ArgumentType.dontcare;
    argument_type_4 = ArgumentType.dontcare;
    reallocate_packet = false;
  };
}

supports-all : SupportsAll platform
supports-all g = refl

abbrev load : Instruction
load = Instruction.load_map_fd (record { dst = 1; mapfd = pos 7 })

abbrev program : InstructionSeq
program = (to 0, load) ∷ (to 2, to_jump none 0) ∷ (to 3, Instruction.exit []) ∷ []

abbrev encoded : List EbpfInst
encoded =
    ebpf_inst 24 1 1 (pos 0) (pos 7)
    ∷ ebpf_inst 0 0 0 (pos 0) (pos 0)
    ∷ ebpf_inst 5 0 0 (negsuc 2) (pos 0)
    ∷ ebpf_inst 149 0 0 (pos 0) (pos 0)
    ∷ []

program-encoded : marshal program ≡ ok encoded
unfolding marshal marshal_from resolve pc_of same_label size marshal_one make_lddw of_jump
    of_jump_always of_ja16 label_to_offset16 label_to_offset32 Number.narrow Number.fits ◌-ℤ◌
program-encoded = refl

program-Numbered : Numbered platform (StartsIn program) 0 program
unfolding size
program-Numbered =
    next 0 load _ (load_map_fd 1 (pos 7) (omega arith))
      (next 2 _ _ (goto 0 (here _ _ _)) (next 3 _ _ exit (done 4)))

unmarshal-marshal_example : unmarshal platform encoded ≡ ok (inl program)
unfolding size
unmarshal-marshal_example =
    unmarshal-marshal platform program encoded supports-all (omega arith) (omega arith)
      program-Numbered program-encoded

program-decoded : unmarshal_insts platform encoded ≡ ok program
unfolding unmarshal_insts unmarshal_from decode Memory.make_lddw lddw_by_src throw_if make_jmp
    check_ja make_jump get_jmp_op get_jump_target label_of_slot get_elem? jump_cond make_exit
    Number.narrow Number.fits ◌+ℤ◌ mod_ℕ
program-decoded = refl

unmarshal_insts-Sound_example : All (SoundEntry encoded) program
unmarshal_insts-Sound_example = unmarshal_insts-Sound platform encoded program program-decoded

abbrev helper_call : Call
helper_call = record {
  func = pos 3;
  name = [];
  is_map_lookup = false;
  reallocate_packet = false;
  singles = record { kind = ArgSingleKind.map_fd; or_null = false; reg = 1 } ∷ [];
  pairs =
      record {
        kind = ArgPairKind.ptr_to_readable_mem;
        or_null = false;
        mem = 2;
        size = 3;
        can_be_zero = false;
      }
      ∷ [];
  stack_frame_prefix = [];
}

helper_call-made : make_call platform (pos 3) ≡ ok helper_call
unfolding make_call add_arguments by_role role_of push_single push_pair to_arg_single_kind
    to_arg_pair_kind is_const_size is_const_size_or_zero is_unsupported is_map_value_or_null
helper_call-made = refl

make_call-Passed_example : Passed helper_call
make_call-Passed_example = make_call-Passed platform (pos 3) helper_call helper_call-made

abbrev two_exits : List EbpfInst
two_exits = ebpf_inst 149 0 0 (pos 0) (pos 0) ∷ ebpf_inst 149 0 0 (pos 0) (pos 0) ∷ []

second-Target : Target two_exits 1
unfolding get_elem?
second-Target = record {
  at_target = ebpf_inst 149 0 0 (pos 0) (pos 0);
  get_elem?-target = refl;
  target-nonzero = refl;
  target-lt = omega arith;
}

near_call_local-Reads_example :
    IfOk (Reads platform two_exits 0 (to_call_local 1)) (marshal_one (to_call_local 0) 0)
unfolding ◌-ℤ◌
near_call_local-Reads_example =
    near_call_local-Reads platform supports-all two_exits 0 0 second-Target refl
