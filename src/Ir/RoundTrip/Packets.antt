-- ===== src/Ir/RoundTrip/Packets.antt =====
-- `makeMemOp` of src/ir/unmarshal.cpp on what the encoder makes of `Packet` and `Atomic`.
use prevail.Prelude.{
  ℕ, ◌≤◌, Bool, true, false, ◌||◌, ltb, ◌≡◌, refl, ap, Option, none, some, if◌then◌else◌, List, [],
  ◌∷◌, arith,
}
use prevail.Prelude.Int.{ℤ, pos, eqb_ℤ, mod_ℕ, ◌-ℤ◌}
use prevail.Prelude.Result.{ok, IfOk, yields, IfOk-bind, IfOk-value}
use prevail.Arith.Number.Narrow.{narrow-fits}
use prevail.Arith.Number.{narrow, sint}
use prevail.Ir.Syntax.{Packet, Atomic, AtomicOp, Instruction}
use prevail.Ir.Isa.{EbpfInst, ebpf_inst, width_to_opcode, cls_ld, cls_stx, mode_atomic}
use prevail.Ir.Platform.{Platform, Group, SupportsAll}
use prevail.Ir.Marshal.{of_packet, of_packet_at, of_atomic, atomic_op}
use prevail.Ir.Unmarshal.{throw_if}
use prevail.Ir.Unmarshal.Memory.{
  get_mem_width, by_mode, packet_abs, packet_ind, atomic, check_packet, get_atomic_op, has_fetch,
}
use prevail.Ir.RoundTrip.Reads.{Reads}
use prevail.Ir.RoundTrip.Memory.{Width, byte, half, word, double, width_to_opcode-Width, mem-Reads}
use Prim.Native.Nat.{bit_or}

-- The exchanges fetch the old value.
unfoldable pub Fetches : AtomicOp → Bool → Type 0
Fetches AtomicOp.xchg fetch = fetch ≡ true
Fetches AtomicOp.cmpxchg fetch = fetch ≡ true
Fetches o fetch = Unit

abbrev pub to_packet : ℤ → ℤ → Option ℕ → Packet
to_packet w i r = record { width = w; offset = i; regoffset = r }

abbrev atomic_imm : AtomicOp → Bool → ℕ
atomic_imm o fetch = if fetch then bit_or (atomic_op o) 1 else atomic_op o

abbrev pub to_atomic : AtomicOp → Bool → ℤ → ℕ → ℤ → ℕ → Atomic
to_atomic o fetch w base off r = record {
  op = o;
  fetch = fetch;
  access = record { width = w; basereg = base; offset = off };
  valreg = r;
}

module _ (p : Platform) (all : SupportsAll p) (insts : List EbpfInst) (pc : ℕ) where
  packet_abs-Reads :
      {w : ℤ} {k : ℕ} (i : ℤ)
      → 0 ≤ 10
      → eqb_ℤ w (pos 8) ≡ false
      → Width w k
      → IfOk
          (Reads p insts pc (Instruction.packet (to_packet w i none)))
          (of_packet_at (bit_or cls_ld k) i none)
  unfolding of_packet_at get_mem_width by_mode packet_abs check_packet throw_if
  packet_abs-Reads i h0 h byte = yields (
      mem-Reads p all insts pc _ 0 0 _ i _ h0 h0 refl refl refl _ refl (rw (all Group.packet) refl))
  packet_abs-Reads i h0 h half = yields (
      mem-Reads p all insts pc _ 0 0 _ i _ h0 h0 refl refl refl _ refl (rw (all Group.packet) refl))
  packet_abs-Reads i h0 h word = yields (
      mem-Reads p all insts pc _ 0 0 _ i _ h0 h0 refl refl refl _ refl (rw (all Group.packet) refl))
  packet_abs-Reads i h0 h double = absurd (ground arith)

  packet_ind-Reads :
      {w : ℤ} {k : ℕ} (i : ℤ) (r : ℕ)
      → 0 ≤ 10
      → r ≤ 10
      → ltb 10 r ≡ false
      → eqb_ℤ w (pos 8) ≡ false
      → Width w k
      → IfOk
          (Reads p insts pc (Instruction.packet (to_packet w i (some r))))
          (of_packet_at (bit_or cls_ld k) i (some r))
  unfolding of_packet_at get_mem_width by_mode packet_ind check_packet throw_if
  packet_ind-Reads i r h0 hr hl h byte = yields (
      mem-Reads p all insts pc _ 0 r _ i _ h0 hr refl refl refl _ refl
        (rw (all Group.packet, hl) refl))
  packet_ind-Reads i r h0 hr hl h half = yields (
      mem-Reads p all insts pc _ 0 r _ i _ h0 hr refl refl refl _ refl
        (rw (all Group.packet, hl) refl))
  packet_ind-Reads i r h0 hr hl h word = yields (
      mem-Reads p all insts pc _ 0 r _ i _ h0 hr refl refl refl _ refl
        (rw (all Group.packet, hl) refl))
  packet_ind-Reads i r h0 hr hl h double = absurd (ground arith)

  at_register :
      (w i : ℤ) (k : ℕ) (r : Option ℕ)
      → (0 ≤ 10)
      → ((s : ℕ) → r ≡ some s → s ≤ 10)
      → eqb_ℤ w (pos 8) ≡ false
      → Width w k
      → IfOk
          (Reads p insts pc (Instruction.packet (to_packet w i r)))
          (of_packet_at (bit_or cls_ld k) i r)
  at_register w i k none h0 hr h width = packet_abs-Reads i h0 h width
  at_register w i k (some s) h0 hr h width =
      packet_ind-Reads i s h0 (hr s refl) (ground (arith, hr s refl)) h width

  pub of_packet-Reads :
      (w i : ℤ) (r : Option ℕ)
      → ((s : ℕ) → r ≡ some s → s ≤ 10)
      → eqb_ℤ w (pos 8) ≡ false
      → IfOk (Reads p insts pc (Instruction.packet (to_packet w i r))) (of_packet (to_packet w i r))
  unfolding of_packet
  of_packet-Reads w i r hr h = IfOk-bind (width_to_opcode w) λ k e.
      IfOk-bind (narrow (sint 32) i) λ i' e'.
        rw (IfOk-value e' (narrow-fits (sint 32) i)).0
          (at_register w i k r (omega arith) hr h (IfOk-value e (width_to_opcode-Width w)))

  get_atomic_op-imm :
      (o : AtomicOp) (fetch : Bool)
      → Fetches o fetch
      → (get_atomic_op pc (pos (atomic_imm o fetch)) ≡ ok o)
        × (has_fetch (pos (atomic_imm o fetch)) ≡ fetch)
  unfolding get_atomic_op atomic_op throw_if Fetches ◌-ℤ◌ mod_ℕ
  get_atomic_op-imm AtomicOp.add true h = (refl, refl)
  get_atomic_op-imm AtomicOp.add false h = (refl, refl)
  get_atomic_op-imm AtomicOp.or true h = (refl, refl)
  get_atomic_op-imm AtomicOp.or false h = (refl, refl)
  get_atomic_op-imm AtomicOp.and true h = (refl, refl)
  get_atomic_op-imm AtomicOp.and false h = (refl, refl)
  get_atomic_op-imm AtomicOp.xor true h = (refl, refl)
  get_atomic_op-imm AtomicOp.xor false h = (refl, refl)
  get_atomic_op-imm AtomicOp.xchg true h = (refl, refl)
  get_atomic_op-imm AtomicOp.xchg false h = absurd (ground arith)
  get_atomic_op-imm AtomicOp.cmpxchg true h = (refl, refl)
  get_atomic_op-imm AtomicOp.cmpxchg false h = absurd (ground arith)

  atomic-Reads :
      {w : ℤ} {k : ℕ} (o : AtomicOp) (fetch : Bool) (base r : ℕ) (off : ℤ)
      → base ≤ 10
      → r ≤ 10
      → (eqb_ℤ w (pos 4) || eqb_ℤ w (pos 8)) ≡ true
      → get_atomic_op pc (pos (atomic_imm o fetch)) ≡ ok o
      → has_fetch (pos (atomic_imm o fetch)) ≡ fetch
      → Width w k
      → Reads p insts pc (Instruction.atomic (to_atomic o fetch w base off r)) (
          ebpf_inst (bit_or (bit_or cls_stx mode_atomic) k) base r off (pos (atomic_imm o fetch))
          ∷ [])
  unfolding get_mem_width by_mode atomic throw_if
  atomic-Reads o fetch base r off hb hr h ho hf byte = absurd (ground arith)
  atomic-Reads o fetch base r off hb hr h ho hf half = absurd (ground arith)
  atomic-Reads o fetch base r off hb hr h ho hf word =
      mem-Reads p all insts pc _ base r off _ _ hb hr refl refl refl _ refl (
        rw (all Group.atomic32, ho)
          (ap (λ t. ok (Instruction.atomic (to_atomic o t (pos 4) base off r))) hf))
  atomic-Reads o fetch base r off hb hr h ho hf double =
      mem-Reads p all insts pc _ base r off _ _ hb hr refl refl refl _ refl (
        rw (all Group.atomic64, ho)
          (ap (λ t. ok (Instruction.atomic (to_atomic o t (pos 8) base off r))) hf))

  pub of_atomic-Reads :
      (o : AtomicOp) (fetch : Bool) (w : ℤ) (base r : ℕ) (off : ℤ)
      → base ≤ 10
      → r ≤ 10
      → (eqb_ℤ w (pos 4) || eqb_ℤ w (pos 8)) ≡ true
      → Fetches o fetch
      → IfOk
          (Reads p insts pc (Instruction.atomic (to_atomic o fetch w base off r)))
          (of_atomic (to_atomic o fetch w base off r))
  unfolding of_atomic
  of_atomic-Reads o fetch w base r off hb hr h hf = IfOk-bind (width_to_opcode w) λ k e.
      IfOk-bind (narrow (sint 16) off) λ off' e'. rw (IfOk-value e' (narrow-fits (sint 16) off)).0 (
        yields (
          atomic-Reads o fetch base r off hb hr h ((get_atomic_op-imm o fetch hf).0)
            ((get_atomic_op-imm o fetch hf).1) (IfOk-value e (width_to_opcode-Width w))))
