-- ===== src/Analyzer/Pairs.antt =====
-- What assignments to the pairs of invariants leave as it was.
use prevail.Prelude.{
  ◌≡◌, refl, sym, ap, ◌∙◌, true, false, Bool-cases, inl, inr, Option, none, some, List, [], ◌∷◌,
}
use prevail.Prelude.Lists.{All}
use prevail.Prelude.Result.{Result, err}
use prevail.Prelude.{Bool, if◌then◌else◌}
use prevail.Prelude.Result.{ok, ◌>>=◌, IfOk, yields, throws}
use prevail.Cfg.Label.{Label, same_label}
use prevail.Cfg.Order.{find, modify}
use prevail.Cfg.Order.Laws.{find-modify, same_label_self, same_label_iff}
use prevail.Ir.Syntax.{Instruction, Assertion}
use prevail.Ir.Program.{Program, instruction_at}
use prevail.Analyzer.{
  Domain, InvariantMapPair, Analysis, pair_at, set_pair, set_pre, set_error, with_pre, with_post,
  with_error, is_increment, present_or_missing, get_post,
}
use prevail.Analyzer
use prevail.Analyzer.Semantics.{Semantics, Checked, Post}
use mathlib.Core.Path.{subst}

pub ok-injective : {A : Type 0} {a b : A} → ok a ≡ ok b → a ≡ b
ok-injective h = cc

module _ {V : Type 0} where
  -- Every error is told by the flag.
  abbrev pub Marks : Analysis V → Type 0
  Marks s =
      (l : Label) (p : InvariantMapPair V) → pair_at s l ≡ ok p → p.error ≡ true → s.failed ≡ true

  -- One pair is changed.
  pub record SetTo (s : Analysis V) (x : Label) (f : InvariantMapPair V → InvariantMapPair V)
      (s' : Analysis V) : Type 0 where
    pub before : InvariantMapPair V
    pub pair_at-before : pair_at s x ≡ ok before
    pub pair_at-after : pair_at s' x ≡ ok (f before)
    pub pair_at-other : (l : Label) → same_label l x ≡ false → pair_at s' l ≡ pair_at s l
    pub skip-same : s'.skip ≡ s.skip
    pub failed-same : s'.failed ≡ s.failed

  pub set_pair-SetTo :
      (s : Analysis V) (x : Label) (f : InvariantMapPair V → InvariantMapPair V)
      → IfOk (SetTo s x f) (set_pair s x f)
  unfolding set_pair pair_at
  set_pair-SetTo s x f = present (find x s.invariants) refl
    where
      present :
          (r : Option (InvariantMapPair V))
          → find x s.invariants ≡ r
          → IfOk
              (SetTo s x f)
              (do p ← present_or_missing r; ok (record s { invariants = modify x f s.invariants }))
      present none e = throws
      present (some p) e =
          let there : find x (modify x f s.invariants) ≡ some (f p) =
            find-modify x f s.invariants x ∙ rw (same_label_self x, e) in
          yields (record {
            before = p;
            pair_at-before = ap present_or_missing e;
            pair_at-after = ap present_or_missing there;
            pair_at-other = λ l n.
                let other : find l (modify x f s.invariants) ≡ find l s.invariants =
                  find-modify x f s.invariants l ∙ rw n in
                ap present_or_missing other;
            skip-same = refl;
            failed-same = refl;
          })

  pub set-Marks :
      {s s' : Analysis V} {x : Label} {f : InvariantMapPair V → InvariantMapPair V}
      → SetTo s x f s'
      → ((p : InvariantMapPair V) → (f p).error ≡ p.error)
      → Marks s
      → Marks s'
  set-Marks {s} {s'} {x} t same m l p h e = elim (Bool-cases (same_label l x)) [
    | inl here ↦
        let l-x : l ≡ x = (same_label_iff l x).0 here in
        let q : p ≡ _ = ok-injective (sym h ∙ ap (pair_at s') l-x ∙ t.pair_at-after) in
        t.failed-same
        ∙ m x t.before t.pair_at-before (sym (same t.before) ∙ ap (λ r. r.error) (sym q) ∙ e)
    | inr other ↦ t.failed-same ∙ m l p (sym (t.pair_at-other l other) ∙ h) e
  ]

module _ (d : Domain) (sem : Semantics d) (prog : Program) where
  -- What `transform_to_post` makes of a node whose state before is described by a value.
  pub record Transformed (l : Label) (v : d.Value) (s s' : Analysis d.Value) : Type 0 where
    pub skip-same : s'.skip ≡ s.skip
    pub quiet : s'.failed ≡ false → s.failed ≡ false
    pub marks : Marks s → Marks s'
    pub frame : (u : Label) → same_label u l ≡ false → pair_at s' u ≡ pair_at s u
    pub pre-kept :
        (p : InvariantMapPair d.Value)
        → pair_at s l ≡ ok p
        → (q : InvariantMapPair d.Value) × (pair_at s' l ≡ ok q) × (q.pre ≡ p.pre)
    pub result :
        Marks s
        → s'.failed ≡ false
        → (x : sem.State) → sem.Denotes v x
        → Checked d sem prog l x
          × ((i : Instruction) (y : sem.State)
              → instruction_at prog l ≡ ok i
              → sem.Step i x y
              → Post d sem prog s' l y)

  pub passes :
      (v : d.Value) (checks : List Assertion) (l : Label) (x : sem.State)
      → Analyzer.any_fails d v checks l ≡ ok false
      → sem.Denotes v x
      → All (λ a. sem.Holds a l x) checks
  unfolding Analyzer.any_fails
  passes v [] l x h k = tt
  passes v (a ∷ rest) l x h k = first (d.fails v a l) refl (λ g. passes v rest l x g k) h
    where
      first :
          (t : Result Bool)
          → d.fails v a l ≡ t
          → (Analyzer.any_fails d v rest l ≡ ok false → All (λ b. sem.Holds b l x) rest)
          → (do b ← t; (if b then ok true else Analyzer.any_fails d v rest l)) ≡ ok false
          → All (λ a. sem.Holds a l x) (a ∷ rest)
      first (ok false) e others h = (sem.fails-Holds v a l x e k, others h)
      first (ok true) e others h = cc
      first (err e') e others h = cc

  pub applied :
      (l : Label) (v w : d.Value) (s s' : Analysis d.Value) (i : Instruction)
      → instruction_at prog l ≡ ok i
      → d.transform v i ≡ ok w
      → ((x : sem.State) → sem.Denotes v x → Checked d sem prog l x)
      → SetTo s l (with_post w) s'
      → Transformed l v s s'
  applied l v w s s' i e made check t = record {
    skip-same = t.skip-same;
    quiet = λ h. sym t.failed-same ∙ h;
    marks = set-Marks t (λ p. refl);
    frame = t.pair_at-other;
    pre-kept =
        λ p h. (_, t.pair_at-after, ap (λ r. r.pre) (ok-injective (sym t.pair_at-before ∙ h)));
    result = λ m q x k. (
      check x k,
      λ i' y e' step. (
        _,
        t.pair_at-after,
        sem.transform-Denotes v w i x y made k
            (subst (λ j. sem.Step j x y) (ok-injective (sym e' ∙ e)) step),
      ),
    );
  }

  pub failed-Transformed :
      (l : Label) (v : d.Value) (s s' : Analysis d.Value)
      → SetTo (record s { failed = true }) l with_error s'
      → Transformed l v s s'
  unfolding pair_at
  failed-Transformed l v s s' t = record {
    skip-same = t.skip-same;
    quiet = λ h. absurd (clash (sym h ∙ t.failed-same));
    marks = λ m u p h k. t.failed-same;
    frame = t.pair_at-other;
    pre-kept =
        λ p h. (_, t.pair_at-after, ap (λ r. r.pre) (ok-injective (sym t.pair_at-before ∙ h)));
    result = λ m h x k. absurd (clash (sym h ∙ t.failed-same));
  }
    where
      clash : false ≡ true → ⊥
      clash h = cc

  -- A node that has failed stays as it is.
  pub kept-Transformed :
      (l : Label) (v : d.Value) (s : Analysis d.Value) (p : InvariantMapPair d.Value)
      → pair_at s l ≡ ok p
      → p.error ≡ true
      → Transformed l v s s
  kept-Transformed l v s p e k = record {
    skip-same = refl;
    quiet = λ h. h;
    marks = λ m. m;
    frame = λ u n. refl;
    pre-kept = λ q h. (q, h, refl);
    result = λ m h x n. absurd (clash (sym h ∙ m l p e k));
  }
    where
      clash : false ≡ true → ⊥
      clash h = cc
