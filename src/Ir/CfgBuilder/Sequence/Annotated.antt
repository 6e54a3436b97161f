-- ===== src/Ir/CfgBuilder/Sequence/Annotated.antt =====
-- The assertions of the program that `Program::from_sequence` of src/ir/cfg_builder.cpp returns.
use prevail.Prelude.{
  ◌≡◌, refl, sym, ap, ◌∙◌, Bool, true, false, inl, inr, Bool-cases, Option, none, some, List, [],
  ◌∷◌, arith,
}
use mathlib.Core.Path.{subst}
use prevail.Prelude.Result.{ok, IfOk, yields, throws, IfOk-bind, IfOk-if, IfOk-flow, IfOk-map}
use prevail.Cfg.Label.{Label, same_label}
use prevail.Cfg.Order.{LabelVec, contains, find, emplace}
use prevail.Cfg.Order.Laws.{same_label_iff, same_label_self, compare_label-eq, find-modify}
use prevail.Cfg.Graph.{Cfg, has_node, is_some, found, labels}
use prevail.Cfg.Wto.{WtoPartition}
use prevail.Ir.Syntax.{Instruction, Assertion}
use prevail.Ir.Assertions.{get_assertions}
use prevail.Ir.Marshal.Sequence.{InstructionSeq}
use prevail.Ir.Program.{Program, instruction_at, assertions_at, set_assertions}
use prevail.Ir.CfgBuilder.Inline.{instruction_seq_to_cfg}
use prevail.Ir.CfgBuilder.Inline.Count.{has_node_iff}
use prevail.Ir.CfgBuilder.Sequence.{extractor, annotate, from_sequence}
use mathlib.Core.Option

-- The label's instruction, and the assertions that are made of it.
pub record IsAnnotated (is_privileged : Bool) (p : Program) (l : Label) : Type 0 where
  pub instruction : Instruction
  pub checks : List Assertion
  pub instruction_at_l : instruction_at p l ≡ ok instruction
  pub made : get_assertions (extractor is_privileged l) instruction ≡ ok checks
  pub assertions_at_l : assertions_at p l ≡ ok checks

module _ {A : Type 0} (l : Label) (v : A) where
  emplaced :
      (m : List (Label × A)) (k : Label)
      → same_label k l ≡ false
      → find k (emplace l v m) ≡ find k m
  unfolding find emplace
  emplaced [] k h = rw h refl
  emplaced ((x, w) ∷ m) k h = ground (arith, emplaced m k h)

  emplaced_itself : (m : List (Label × A)) → is_some (find l (emplace l v m)) ≡ true
  unfolding find emplace
  emplaced_itself [] = rw (same_label_self l) refl
  emplaced_itself ((x, w) ∷ m) =
      ground (arith, emplaced_itself m, same_label_self l, same_label_iff l x, compare_label-eq l x)

always_some :
    {A : Type 0} (v : A) (o : Option A) → is_some o ≡ true → Option.map (λ _. v) o ≡ some v
always_some v none h = cc
always_some v (some w) h = refl

-- The program after an assignment of assertions.
record Assigned (p : Program) (l : Label) (checks : List Assertion) (q : Program) : Type 0 where
  same_instructions : q.instructions ≡ p.instructions
  same_cfg : q.cfg ≡ p.cfg
  itself : find l q.assertions ≡ some checks
  others : (k : Label) → same_label k l ≡ false → find k q.assertions ≡ find k p.assertions

set_assertions-Assigned :
    (p : Program) (l : Label) (checks : List Assertion)
    → IfOk (Assigned p l checks) (set_assertions p l checks)
unfolding set_assertions
set_assertions-Assigned p l checks =
    IfOk-if (has_node p.cfg l)
      (λ h. yields (record {
        same_instructions = refl;
        same_cfg = refl;
        itself =
            find-modify l (λ _. checks) (emplace l checks p.assertions) l
            ∙ rw (same_label_self l) (always_some checks _ (emplaced_itself l checks p.assertions));
        others = λ k e.
            find-modify l (λ _. checks) (emplace l checks p.assertions) k
            ∙ rw e (emplaced l checks p.assertions k e);
      }))
      λ h. throws

-- The program after the annotation of labels.
record Marked (is_privileged : Bool) (s : LabelVec) (p q : Program) : Type 0 where
  instructions_kept : q.instructions ≡ p.instructions
  cfg_kept : q.cfg ≡ p.cfg
  inside : (l : Label) → contains s l ≡ true → IsAnnotated is_privileged q l
  outside : (l : Label) → contains s l ≡ false → find l q.assertions ≡ find l p.assertions

module _ (is_privileged : Bool) where
  same_instruction :
      (p q : Program) (l : Label)
      → q.instructions ≡ p.instructions
      → instruction_at q l ≡ instruction_at p l
  unfolding instruction_at
  same_instruction p q l e = ap (λ m. found (find l m)) e

  annotate-Marked :
      (s : LabelVec) (p : Program) → IfOk (Marked is_privileged s p) (annotate is_privileged s p)
  unfolding annotate contains assertions_at
  annotate-Marked [] p = yields (record {
    instructions_kept = refl;
    cfg_kept = refl;
    inside = λ l h. cc;
    outside = λ l h. refl;
  })
  annotate-Marked (l ∷ rest) p = IfOk-bind (instruction_at p l) λ i e.
      IfOk-bind (get_assertions (extractor is_privileged l) i) λ checks f.
        IfOk-flow (set_assertions-Assigned p l checks) λ p1 a.
          IfOk-map (annotate-Marked rest p1) λ q m.
            let kept = m.instructions_kept ∙ a.same_instructions in
            let here : contains rest l ≡ false → IsAnnotated is_privileged q l = λ c. record {
              instruction = i;
              checks = checks;
              instruction_at_l = same_instruction p q l kept ∙ e;
              made = f;
              assertions_at_l = ap found (m.outside l c ∙ a.itself);
            } in
            record {
              instructions_kept = kept;
              cfg_kept = m.cfg_kept ∙ a.same_cfg;
              inside = λ k h. elim (Bool-cases (contains rest k)) [
                | inl c ↦ m.inside k c
                | inr c ↦
                    let same : k ≡ l = (same_label_iff k l).0 (ground (arith, h, c)) in
                    subst (IsAnnotated is_privileged q) (sym same)
                      (here (ap (contains rest) (sym same) ∙ c))
              ];
              outside = λ k h. m.outside k (ground (arith, h)) ∙ a.others k (ground (arith, h));
            }

-- Whatever the sequence, the order of components that its graph is given and the options, if
-- from_sequence returns a program, then each node of its graph has an instruction, also where it
-- assumes a condition, counts a loop or is the copy of a called one, and keeps the assertions
-- that get_assertions makes of that instruction at that label.
pub from_sequence-IsAnnotated :
    (wto_of : Cfg → WtoPartition) (is_privileged must_have_exit check_for_termination : Bool)
    (insts : InstructionSeq)
    → IfOk
        (λ p. (l : Label) → has_node p.cfg l ≡ true → IsAnnotated is_privileged p l)
        (from_sequence wto_of is_privileged must_have_exit check_for_termination insts)
unfolding from_sequence has_node
from_sequence-IsAnnotated wto_of privileged must_have_exit check insts =
    IfOk-bind (instruction_seq_to_cfg insts must_have_exit) λ p e. IfOk-bind _ λ p1 f.
      IfOk-map (annotate-Marked privileged (labels p1.cfg) p1) λ q m l h. m.inside l (
        sym (has_node_iff p1.cfg.neighbours l)
        ∙ sym (ap (λ g. is_some (find l g.neighbours)) m.cfg_kept)
        ∙ h)
