-- ===== src/Ir/Isa.antt =====
-- The encoded instruction, the constants that the encoder uses, and `split`, of
-- src/spec/vm_isa.hpp, with `width_to_opcode` of src/ir/unmarshal.cpp. `dst` and `src` are bit
-- fields of four bits.
use prevail.Prelude.{ℕ, ◌+◌, ◌*◌, ◌/◌, ◌%◌, ◌^◌, if◌then◌else◌}
use prevail.Prelude.Int.{ℤ, pos, eqb_ℤ, mod_ℕ}
use prevail.Prelude.Result.{Result, ok, err, invalid_width}
use prevail.Arith.Number.{static_cast, sint}

pub record EbpfInst : Type 0 where
  pub opcode : ℕ
  pub dst : ℕ
  pub src : ℕ
  pub offset : ℤ
  pub imm : ℤ

-- An encoded instruction, with its register numbers cut to the four bits of their fields.
abbrev pub ebpf_inst : ℕ → ℕ → ℕ → ℤ → ℤ → EbpfInst
ebpf_inst o d s off i = record {
  opcode = o;
  dst = d % 2 ^ 4;
  src = s % 2 ^ 4;
  offset = off;
  imm = i;
}

abbrev pub cls_ld : ℕ
cls_ld = 0

abbrev pub cls_st : ℕ
cls_st = 2

abbrev pub cls_stx : ℕ
cls_stx = 3

abbrev pub cls_alu : ℕ
cls_alu = 4

abbrev pub cls_jmp : ℕ
cls_jmp = 5

abbrev pub cls_jmp32 : ℕ
cls_jmp32 = 6

abbrev pub cls_alu64 : ℕ
cls_alu64 = 7

abbrev pub src_reg : ℕ
src_reg = 8

abbrev pub end_be : ℕ
end_be = 8

abbrev pub mode_abs : ℕ
mode_abs = 32

abbrev pub mode_ind : ℕ
mode_ind = 64

abbrev pub mode_mem : ℕ
mode_mem = 96

abbrev pub mode_atomic : ℕ
mode_atomic = 192

abbrev pub op_call : ℕ
op_call = 133

abbrev pub op_callx : ℕ
op_callx = 141

abbrev pub op_exit : ℕ
op_exit = 149

abbrev pub alu_op_neg : ℕ
alu_op_neg = 128

abbrev pub alu_op_end : ℕ
alu_op_end = 208

abbrev pub ld_mode_imm : ℕ
ld_mode_imm = 0

abbrev pub ld_mode_map_fd : ℕ
ld_mode_map_fd = 1

abbrev pub ld_mode_map_value : ℕ
ld_mode_map_value = 2

unfoldable pub split : ℕ → ℤ × ℤ
split v = (static_cast (sint 32) (pos v), static_cast (sint 32) (pos (v / 2 ^ 32)))

unfoldable pub width_to_opcode : ℤ → Result ℕ
width_to_opcode w =
    if eqb_ℤ w (pos 1)
    then ok 16
    else if eqb_ℤ w (pos 2)
    then ok 8
    else if eqb_ℤ w (pos 4)
    then ok 0
    else if eqb_ℤ w (pos 8)
    then ok 24
    else err invalid_width

abbrev pub op_lddw_imm : ℕ
op_lddw_imm = 24

-- The shifted half and the other one have no bit in common: their union is their sum.
unfoldable pub merge : ℤ → ℤ → ℕ
merge i next_imm = mod_ℕ next_imm (2 ^ 64) * 2 ^ 32 % 2 ^ 64 + mod_ℕ i (2 ^ 32)

abbrev pub cls_ldx : ℕ
cls_ldx = 1

abbrev pub op_ja16 : ℕ
op_ja16 = 5

abbrev pub op_ja32 : ℕ
op_ja32 = 6
