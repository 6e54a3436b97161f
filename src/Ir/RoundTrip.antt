-- ===== src/Ir/RoundTrip.antt =====
-- The decoder of src/ir/unmarshal.cpp on what the encoder of src/ir/marshal.cpp makes. Here: the
-- fields of the opcodes, and immediates.
pub mod Reads
pub mod Alu
pub mod Unary
pub mod Memory
pub mod Packets
pub mod Loads
pub mod Jumps
pub mod Branches
pub mod Calls
pub mod WellFormed
pub mod First
pub mod Labels
pub mod Program
use prevail.Prelude.{
  ℕ, zero, suc, ◌+◌, ◌*◌, ◌^◌, ◌<◌, ◌≤◌, ◌%◌, Bool, true, false, ◌&&◌, ◌==◌, ◌≡◌, refl, sym, ap,
  ◌∙◌, if◌then◌else◌, arith,
}
use prevail.Prelude.Int.{ℤ, pos, negsuc, nat_abs, mod_ℕ}
use prevail.Prelude.Result.{Result, ok, err, ◌>>◌, IfOk, no_fit, yields, throws, IfOk-map}
use prevail.Arith.Number.Narrow.{narrow-fits}
use prevail.Arith.Number.{narrow, static_cast, fits, IntType, sint}
use prevail.Ir.Isa.{EbpfInst, ebpf_inst}
use prevail.Ir.Unmarshal.{throw_if, sign_extend, zero_extend, class_of, alu_op_of, has_src_reg}
use native.Mathlib.Nat.{mod-eq_of_lt}
use Prim.Native.Nat.{bit_or}

-- A slot with its register numbers as they are.
abbrev pub slot : ℕ → ℕ → ℕ → ℤ → ℤ → EbpfInst
slot o d s off i = record { opcode = o; dst = d; src = s; offset = off; imm = i }

register-fits : (r : ℕ) → r ≤ 10 → r % 2 ^ 4 ≡ r
register-fits r h = mod-eq_of_lt (omega arith)

-- A register's number fits the four bits of its field.
pub ebpf_inst-slot :
    (o d s : ℕ) (off i : ℤ) → d ≤ 10 → s ≤ 10 → ebpf_inst o d s off i ≡ slot o d s off i
ebpf_inst-slot o d s off i hd hs = rw (register-fits d hd) (rw (register-fits s hs) refl)

-- A test that does not throw.
pub passes : {A : Type 0} (pc : ℕ) {t : Bool} {r : Result A} → t ≡ false → (throw_if pc t >> r) ≡ r
unfolding throw_if
passes pc h = rw h refl

fits-lt : (v : ℕ) → fits (sint 32) (pos v) ≡ true → v < 2 ^ 31
unfolding fits
fits-lt v h = ground arith

-- An immediate that the encoder takes is read back by either extension.
pub extend-narrow :
    (v : ℕ) → IfOk (λ i. (sign_extend i ≡ v) × (zero_extend i ≡ v)) (narrow (sint 32) (pos v))
unfolding sign_extend zero_extend static_cast mod_ℕ
extend-narrow v = IfOk-map (narrow-fits (sint 32) (pos v)) λ i h.
    let small = fits-lt v (h.1) in
    (
      ap sign_extend (h.0) ∙ mod-eq_of_lt (omega (arith, small)),
      ap zero_extend (h.0) ∙ mod-eq_of_lt (omega (arith, small)),
    )
