-- ===== src/Ir/RoundTrip/Loads.antt =====
-- `makeLddw` of src/ir/unmarshal.cpp on what the encoder makes of the instructions of two slots, with
-- `split` and `merge` of src/spec/vm_isa.hpp.
use prevail.Prelude.{ℕ, ◌*◌, ◌/◌, ◌%◌, ◌^◌, ◌≤◌, ◌<◌, ltb, true, false, ◌≡◌, refl, ap, List, arith}
use prevail.Prelude.Int.{ℤ, pos, mod_ℕ}
use prevail.Prelude.Result.{ok, IfOk, yields}
use prevail.Arith.Number.{static_cast, sint}
use prevail.Ir.Syntax.{BinOp, Instruction, imm}
use prevail.Ir.Isa.{EbpfInst, split, merge}
use prevail.Ir.Platform.{Platform, Group, SupportsAll}
use prevail.Ir.Marshal.{make_lddw, of_lddw}
use prevail.Ir.Unmarshal.{throw_if}
use prevail.Ir.Unmarshal.Memory
use prevail.Ir.Unmarshal.Memory.{lddw_by_src}
use prevail.Ir.Unmarshal.Sequence.{decode}
use prevail.Ir.RoundTrip.{slot, ebpf_inst-slot}
use prevail.Ir.RoundTrip.Reads.{Reads, two}

low-half : (v : ℕ) → mod_ℕ (static_cast (sint 32) (pos v)) (2 ^ 32) ≡ v % 2 ^ 32
unfolding static_cast mod_ℕ
low-half v = ground arith

high-half :
    (h : ℕ)
    → h < 2 ^ 32
    → mod_ℕ (static_cast (sint 32) (pos h)) (2 ^ 64) * 2 ^ 32 % 2 ^ 64 ≡ h * 2 ^ 32
unfolding static_cast mod_ℕ
high-half h lt = ground arith

-- The two halves of a number of 64 bits give it back.
pub merge-split : (v : ℕ) → v < 2 ^ 64 → merge ((split v).0) ((split v).1) ≡ v
unfolding merge split
merge-split v h = rw (high-half (v / 2 ^ 32) (omega arith), low-half v) (omega arith)

module _ (p : Platform) (all : SupportsAll p) (insts : List EbpfInst) (pc d : ℕ) (hd : d ≤ 10) where
  -- The decoder on the two slots that `make_lddw` of the encoder writes.
  two_slots :
      (type : ℕ) (i next_imm : ℤ) (ins : Instruction)
      → type ≤ 2
      → lddw_by_src pc (slot 24 d type (pos 0) i) next_imm next_imm ≡ ok ins
      → Reads p insts pc ins (make_lddw d type i next_imm)
  unfolding make_lddw decode Memory.make_lddw throw_if
  two_slots type i next_imm ins ht hl =
      let low : ltb 2 type ≡ false = ground arith in
      let register : ltb 10 d ≡ false = ground arith in
      rw (ebpf_inst-slot 24 d type (pos 0) i hd (omega (arith, ht)))
        (two _ _ (rw (all Group.base64, low, register, hl) refl) refl)

  pub of_lddw-Reads :
      (v : ℕ)
      → v < 2 ^ 64
      → IfOk
          (Reads p insts pc (
            Instruction.bin
              (record { op = BinOp.mov; dst = d; v = imm v; is64 = true; lddw = true })))
          (of_lddw d (imm v))
  unfolding of_lddw lddw_by_src
  of_lddw-Reads v h = yields (
      two_slots 0 ((split v).0) ((split v).1) _ (omega arith) (
        ap
          (λ u. ok (
            Instruction.bin
              (record { op = BinOp.mov; dst = d; v = imm u; is64 = true; lddw = true })))
          (merge-split v h)))

  pub load_map_fd-Reads :
      (fd : ℤ)
      → Reads p insts pc
          (Instruction.load_map_fd (record { dst = d; mapfd = fd }))
          (make_lddw d 1 fd (pos 0))
  unfolding lddw_by_src throw_if
  load_map_fd-Reads fd = two_slots 1 fd (pos 0) _ (omega arith) refl

  pub load_map_address-Reads :
      (fd off : ℤ)
      → Reads p insts pc
          (Instruction.load_map_address (record { dst = d; mapfd = fd; offset = off }))
          (make_lddw d 2 fd off)
  unfolding lddw_by_src
  load_map_address-Reads fd off = two_slots 2 fd off _ (omega arith) refl
