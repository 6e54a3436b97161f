-- ===== src/Ir/Platform.antt =====
-- What src/ir/unmarshal.cpp asks of `ebpf_platform_t` of src/platform.hpp: the groups of instructions
-- that it supports, by the names of `bpf_conformance_groups_t`, and the helpers, with their
-- prototypes of src/spec/function_prototypes.hpp and src/spec/ebpf_base.h.
use prevail.Prelude.{Bool, true, ◌≡◌}
use prevail.Prelude.Int.{ℤ}
use prevail.Cfg.Label.{Text}

pub data Group : Type 0 where
  base32 base64 divmul32 divmul64 packet callx atomic32 atomic64 : Group

pub data ReturnType : Type 0 where
  integer ptr_to_map_value_or_null integer_or_no_return_if_succeed unsupported : ReturnType

pub data ArgumentType : Type 0 where
  dontcare anything const_size const_size_or_zero ptr_to_stack ptr_to_stack_or_null : ArgumentType
  ptr_to_ctx ptr_to_ctx_or_null ptr_to_map ptr_to_map_of_programs ptr_to_map_key : ArgumentType
  ptr_to_map_value ptr_to_readable_mem ptr_to_readable_mem_or_null : ArgumentType
  ptr_to_writable_mem ptr_to_writable_mem_or_null unsupported : ArgumentType

-- The five members of the array `argument_type`, by their number.
pub record HelperPrototype : Type 0 where
  pub name : Text
  pub return_type : ReturnType
  pub argument_type_0 : ArgumentType
  pub argument_type_1 : ArgumentType
  pub argument_type_2 : ArgumentType
  pub argument_type_3 : ArgumentType
  pub argument_type_4 : ArgumentType
  pub reallocate_packet : Bool

pub record Platform : Type 0 where
  pub supports_group : Group → Bool
  pub is_helper_usable : ℤ → Bool
  pub get_helper_prototype : ℤ → HelperPrototype

-- Every group is supported.
abbrev pub SupportsAll : Platform → Type 0
SupportsAll p = (g : Group) → p.supports_group g ≡ true
