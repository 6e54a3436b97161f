-- ===== src/Ir/Unmarshal/Calls.antt =====
-- `toArgSingleKind`, `toArgPairKind` and `makeCall` of src/ir/unmarshal.cpp, and its `make_call`.
use prevail.Prelude.{ℕ, suc, Bool, true, false, ◌||◌, List, [], ◌∷◌, ◌++◌}
use prevail.Prelude.Int.{ℤ}
use prevail.Prelude.Result.{
  Result, ok, err, unsupported_function, mismatched_size, pointer_without_size,
}
use prevail.Ir.Syntax.{ArgSingleKind, ArgPairKind, Call}
use prevail.Ir.Platform.{Platform, ReturnType, ArgumentType}

-- An enumeration's first value is its default.
unfoldable pub to_arg_single_kind : ArgumentType → ArgSingleKind
to_arg_single_kind ArgumentType.anything = ArgSingleKind.anything
to_arg_single_kind ArgumentType.ptr_to_stack = ArgSingleKind.ptr_to_stack
to_arg_single_kind ArgumentType.ptr_to_stack_or_null = ArgSingleKind.ptr_to_stack
to_arg_single_kind ArgumentType.ptr_to_map = ArgSingleKind.map_fd
to_arg_single_kind ArgumentType.ptr_to_map_of_programs = ArgSingleKind.map_fd_programs
to_arg_single_kind ArgumentType.ptr_to_map_key = ArgSingleKind.ptr_to_map_key
to_arg_single_kind ArgumentType.ptr_to_map_value = ArgSingleKind.ptr_to_map_value
to_arg_single_kind ArgumentType.ptr_to_ctx = ArgSingleKind.ptr_to_ctx
to_arg_single_kind ArgumentType.ptr_to_ctx_or_null = ArgSingleKind.ptr_to_ctx
to_arg_single_kind _ = ArgSingleKind.map_fd

unfoldable pub to_arg_pair_kind : ArgumentType → ArgPairKind
to_arg_pair_kind ArgumentType.ptr_to_writable_mem_or_null = ArgPairKind.ptr_to_writable_mem
to_arg_pair_kind ArgumentType.ptr_to_writable_mem = ArgPairKind.ptr_to_writable_mem
to_arg_pair_kind _ = ArgPairKind.ptr_to_readable_mem

-- The arms of the loop's switch: what is to be done with an argument.
pub data ArgumentRole : Type 0 where
  unusable done size_alone : ArgumentRole
  single pair : (or_null : Bool) → ArgumentRole

unfoldable pub role_of : ArgumentType → ArgumentRole
role_of ArgumentType.unsupported = ArgumentRole.unusable
role_of ArgumentType.dontcare = ArgumentRole.done
role_of ArgumentType.anything = ArgumentRole.single false
role_of ArgumentType.ptr_to_map = ArgumentRole.single false
role_of ArgumentType.ptr_to_map_of_programs = ArgumentRole.single false
role_of ArgumentType.ptr_to_map_key = ArgumentRole.single false
role_of ArgumentType.ptr_to_map_value = ArgumentRole.single false
role_of ArgumentType.ptr_to_stack = ArgumentRole.single false
role_of ArgumentType.ptr_to_ctx = ArgumentRole.single false
role_of ArgumentType.ptr_to_stack_or_null = ArgumentRole.single true
role_of ArgumentType.ptr_to_ctx_or_null = ArgumentRole.single true
role_of ArgumentType.const_size = ArgumentRole.size_alone
role_of ArgumentType.const_size_or_zero = ArgumentRole.size_alone
role_of ArgumentType.ptr_to_readable_mem_or_null = ArgumentRole.pair true
role_of ArgumentType.ptr_to_readable_mem = ArgumentRole.pair false
role_of ArgumentType.ptr_to_writable_mem_or_null = ArgumentRole.pair true
role_of ArgumentType.ptr_to_writable_mem = ArgumentRole.pair false

unfoldable pub is_const_size : ArgumentType → Bool
is_const_size ArgumentType.const_size = true
is_const_size _ = false

unfoldable pub is_const_size_or_zero : ArgumentType → Bool
is_const_size_or_zero ArgumentType.const_size_or_zero = true
is_const_size_or_zero _ = false

unfoldable pub push_single : Call → ℕ → ArgumentType → Bool → Call
push_single res i arg or_null = record res {
  singles =
      res.singles ++ (record { kind = to_arg_single_kind arg; or_null = or_null; reg = i } ∷ []);
}

unfoldable pub push_pair : Call → ℕ → ArgumentType → ArgumentType → Bool → Call
push_pair res i arg next or_null = record res {
  pairs =
      res.pairs
      ++ (record {
        kind = to_arg_pair_kind arg;
        or_null = or_null;
        mem = i;
        size = suc i;
        can_be_zero = is_const_size_or_zero next;
      }
          ∷ []);
}

-- The switch of the loop: an error, the end, or what to do with an argument or a pair.
unfoldable pub by_role :
    ArgumentRole → Call → (Bool → Result Call) → (Bool → Result Call) → Result Call
by_role ArgumentRole.unusable res on_single on_pair = err unsupported_function
by_role ArgumentRole.done res on_single on_pair = ok res
by_role ArgumentRole.size_alone res on_single on_pair = err mismatched_size
by_role (ArgumentRole.single or_null) res on_single on_pair = on_single or_null
by_role (ArgumentRole.pair or_null) res on_single on_pair = on_pair or_null

abbrev pub is_any_size : ArgumentType → Bool
is_any_size next = is_const_size next || is_const_size_or_zero next

-- The loop, from argument i on: the list is `args` from i to its end, whose last member is not an
-- argument. So `args[i + 1]` is always there.
unfoldable pub add_arguments : ℕ → List ArgumentType → Call → Result Call
add_arguments i [] res = ok res
add_arguments i (last ∷ []) res = ok res
add_arguments i (arg ∷ next ∷ rest) res =
    by_role (role_of arg) res
      (λ or_null. add_arguments (suc i) (next ∷ rest) (push_single res i arg or_null))
      (λ or_null. elim (is_any_size next) [
        | true ↦ add_arguments (suc (suc i)) rest (push_pair res i arg next or_null)
        | false ↦ err pointer_without_size
      ])

unfoldable pub is_unsupported : ReturnType → Bool
is_unsupported ReturnType.unsupported = true
is_unsupported _ = false

unfoldable pub is_map_value_or_null : ReturnType → Bool
is_map_value_or_null ReturnType.ptr_to_map_value_or_null = true
is_map_value_or_null _ = false

-- Also `make_call`, which calls it on a platform of its own.
unfoldable pub make_call : Platform → ℤ → Result Call
make_call p i =
    let proto = p.get_helper_prototype i in
    elim (is_unsupported proto.return_type) [
      | true ↦ err unsupported_function
      | false ↦
          add_arguments 1
            (proto.argument_type_0 ∷ proto.argument_type_1 ∷ proto.argument_type_2
              ∷ proto.argument_type_3 ∷ proto.argument_type_4 ∷ ArgumentType.dontcare ∷ [])
            (record {
              func = i;
              name = proto.name;
              is_map_lookup = is_map_value_or_null proto.return_type;
              reallocate_packet = proto.reallocate_packet;
              singles = [];
              pairs = [];
              stack_frame_prefix = [];
            })
    ]
