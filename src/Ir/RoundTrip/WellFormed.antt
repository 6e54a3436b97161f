-- ===== src/Ir/RoundTrip/WellFormed.antt =====
-- The instructions of src/ir/syntax.hpp that src/ir/unmarshal.cpp makes of a program and
-- src/ir/marshal.cpp can write down. A predicate `T` says which program counters jumps lead to.
use prevail.Prelude.{ℕ, ◌<◌, ◌≤◌, ◌^◌, ◌≡◌, Bool, true, false, ◌||◌, Option, none, some, List, []}
use prevail.Prelude.Int.{ℤ, pos, eqb_ℤ}
use prevail.Prelude.Result.{ok, IfOk, yields}
use prevail.Cfg.Label.{jump_offset, is16}
use prevail.Ir.Syntax.{BinOp, UnOp, Value, imm, reg, Call, ConditionOp, AtomicOp, Instruction}
use prevail.Ir.Isa.{EbpfInst}
use prevail.Ir.Platform.{Platform, SupportsAll}
use prevail.Ir.Marshal.{marshal_one, of_bin}
use prevail.Ir.Unmarshal.Calls.{make_call}
use prevail.Ir.Unmarshal.Sequence.{is_shift32, is_lsh}
use prevail.Ir.RoundTrip.Reads.{Reads}
use prevail.Ir.RoundTrip.Alu.{alu_bin, TakesSource, of_alu-reg-Reads, of_alu-imm-Reads}
use prevail.Ir.RoundTrip.Unary.{HasClass, of_un_op-Reads}
use prevail.Ir.RoundTrip.Memory.{access, load_mem-Reads, store_mem-Reads}
use prevail.Ir.RoundTrip.Packets.{Fetches, to_packet, to_atomic, of_packet-Reads, of_atomic-Reads}
use prevail.Ir.RoundTrip.Loads.{of_lddw-Reads, load_map_fd-Reads, load_map_address-Reads}
use prevail.Ir.RoundTrip.Jumps.{Target, to, to_jump, of_jump_always-Reads}
use prevail.Ir.RoundTrip.Branches.{condition, of_jump_if-Reads}
use prevail.Ir.RoundTrip.Calls.{
  to_call_local, exit-Reads, callx-Reads, call-Reads, far_call_local-Reads,
}

-- No operation but a load of an immediate writes r10. A shift to the left by 32 is left out, which
-- the decoder may merge with the next instruction; so is a local call to within 16 bits.
pub data WellFormed (p : Platform) (T : ℕ → Type 0) (pc : ℕ) : Instruction → Type 0 where
  bin_reg :
      (o : BinOp) (is64 : Bool) (d r : ℕ)
      → d < 10
      → r ≤ 10
      → WellFormed p T pc (Instruction.bin (alu_bin o d (reg r) is64))
  bin_imm :
      (o : BinOp) (is64 : Bool) (d v : ℕ)
      → d < 10
      → TakesSource o false
      → is_shift32 d is_lsh (Instruction.bin (alu_bin o d (imm v) is64)) ≡ false
      → WellFormed p T pc (Instruction.bin (alu_bin o d (imm v) is64))
  lddw :
      (d v : ℕ)
      → d ≤ 10
      → v < 2 ^ 64
      → WellFormed p T pc (
          Instruction.bin (record { op = BinOp.mov; dst = d; v = imm v; is64 = true; lddw = true }))
  un :
      (o : UnOp) (is64 : Bool) (d : ℕ)
      → d < 10
      → HasClass o is64
      → WellFormed p T pc (Instruction.un (record { op = o; dst = d; is64 = is64 }))
  load_map_fd :
      (d : ℕ) (fd : ℤ)
      → d ≤ 10
      → WellFormed p T pc (Instruction.load_map_fd (record { dst = d; mapfd = fd }))
  load_map_address :
      (d : ℕ) (fd off : ℤ)
      → d ≤ 10
      → WellFormed p T pc
          (Instruction.load_map_address (record { dst = d; mapfd = fd; offset = off }))
  call :
      (c : Call)
      → p.is_helper_usable c.func ≡ true
      → make_call p c.func ≡ ok c
      → WellFormed p T pc (Instruction.call c)
  far_call_local :
      (t : ℕ) → T t → is16 (jump_offset pc (to t)) ≡ false → WellFormed p T pc (to_call_local t)
  callx : (r : ℕ) → r ≤ 10 → WellFormed p T pc (Instruction.callx r)
  exit : WellFormed p T pc (Instruction.exit [])
  goto : (t : ℕ) → T t → WellFormed p T pc (to_jump none t)
  branch :
      (o : ConditionOp) (l t : ℕ) (v : Value)
      → T t
      → is16 (jump_offset pc (to t)) ≡ true
      → l ≤ 10
      → ((r : ℕ) → v ≡ reg r → r ≤ 10)
      → WellFormed p T pc (to_jump (some (condition o l v)) t)
  load :
      (w : ℤ) (base r : ℕ) (off : ℤ)
      → base ≤ 10
      → r < 10
      → WellFormed p T pc (access w base off (reg r) true)
  store :
      (w : ℤ) (base : ℕ) (off : ℤ) (v : Value)
      → base ≤ 10
      → ((r : ℕ) → v ≡ reg r → r ≤ 10)
      → WellFormed p T pc (access w base off v false)
  packet :
      (w i : ℤ) (r : Option ℕ)
      → ((s : ℕ) → r ≡ some s → s ≤ 10)
      → eqb_ℤ w (pos 8) ≡ false
      → WellFormed p T pc (Instruction.packet (to_packet w i r))
  atomic :
      (o : AtomicOp) (fetch : Bool) (w : ℤ) (base r : ℕ) (off : ℤ)
      → base ≤ 10
      → r ≤ 10
      → (eqb_ℤ w (pos 4) || eqb_ℤ w (pos 8)) ≡ true
      → Fetches o fetch
      → WellFormed p T pc (Instruction.atomic (to_atomic o fetch w base off r))

module _ (p : Platform) (all : SupportsAll p) (insts : List EbpfInst) (T : ℕ → Type 0)
    (target : (t : ℕ) → T t → Target insts t) where
  pub marshal_one-Reads :
      (pc : ℕ) (i : Instruction)
      → WellFormed p T pc i
      → IfOk (Reads p insts pc i) (marshal_one i pc)
  unfolding marshal_one of_bin
  marshal_one-Reads pc _ (bin_reg o is64 d r hd hr) =
      of_alu-reg-Reads p all insts pc o is64 d r hd hr
  marshal_one-Reads pc _ (bin_imm o is64 d v hd ht hn) =
      of_alu-imm-Reads p all insts pc o is64 d v hd ht hn
  marshal_one-Reads pc _ (lddw d v hd hv) = of_lddw-Reads p all insts pc d hd v hv
  marshal_one-Reads pc _ (un o is64 d hd h) = of_un_op-Reads p all insts pc d hd o is64 h
  marshal_one-Reads pc _ (load_map_fd d fd hd) = yields (load_map_fd-Reads p all insts pc d hd fd)
  marshal_one-Reads pc _ (load_map_address d fd off hd) =
      yields (load_map_address-Reads p all insts pc d hd fd off)
  marshal_one-Reads pc _ (call c usable h) = yields (call-Reads p all insts pc c usable h)
  marshal_one-Reads pc _ (far_call_local t h far) =
      far_call_local-Reads p all insts pc t (target t h) far
  marshal_one-Reads pc _ (callx r h) = yields (callx-Reads p all insts pc r h)
  marshal_one-Reads pc _ exit = yields (exit-Reads p all insts pc)
  marshal_one-Reads pc _ (goto t h) = of_jump_always-Reads p all insts pc t (target t h)
  marshal_one-Reads pc _ (branch o l t v h near hl hv) =
      of_jump_if-Reads p all insts pc t o l (target t h) near hl v hv
  marshal_one-Reads pc _ (load w base r off hb hr) =
      load_mem-Reads p all insts pc w base r off hb hr
  marshal_one-Reads pc _ (store w base off v hb hv) =
      store_mem-Reads p all insts pc w base off v hb hv
  marshal_one-Reads pc _ (packet w i r hr h) = of_packet-Reads p all insts pc w i r hr h
  marshal_one-Reads pc _ (atomic o fetch w base r off hb hr h hf) =
      of_atomic-Reads p all insts pc o fetch w base r off hb hr h hf
