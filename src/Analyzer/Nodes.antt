-- ===== src/Analyzer/Nodes.antt =====
-- The visit of a node: what the state before it and the state after it describe.
use prevail.Prelude.{
  ◌≡◌, sym, ap, ◌∙◌, true, false, inl, inr, Bool-cases, List, [], ◌∷◌, if◌then◌else◌, arith,
}
use prevail.Prelude.Lists.{All}
use prevail.Prelude.Result.{ok, IfOk, yields, IfOk-bind, IfOk-bind_bind, IfOk-map}
use prevail.Cfg.Label.{Label, same_label}
use prevail.Cfg.Order.{LabelVec, contains}
use prevail.Cfg.Order.Laws.{same_label_iff}
use prevail.Cfg.Graph.{entry, parents_of}
use prevail.Ir.Syntax.{Instruction, Assertion}
use prevail.Ir.Program.{Program, instruction_at, assertions_at}
use prevail.Analyzer.{
  Domain, Analysis, pair_at, set_error, with_post, with_error, is_increment, get_post,
  transform_to_post, checked, apply, any_fails, join_posts, join_all_prevs,
}
use prevail.Analyzer.Semantics.{Semantics, Post, Parent}
use prevail.Analyzer.Pairs.{
  set_pair-SetTo, Transformed, passes, applied, failed-Transformed, kept-Transformed, ok-injective,
}
use prevail.Prelude.{Bool}
use prevail.Analyzer.Semantics.{Checked}
use mathlib.Core.Path.{subst}

module _ (d : Domain) (sem : Semantics d) (prog : Program) where
  applies-Transformed :
      (l : Label) (v : d.Value) (s : Analysis d.Value) (i : Instruction)
      → instruction_at prog l ≡ ok i
      → ((x : sem.State) → sem.Denotes v x → Checked d sem prog l x)
      → IfOk (Transformed d sem prog l v s) (apply d s l v i)
  unfolding apply
  applies-Transformed l v s i e check = IfOk-bind (d.transform v i) λ w made.
      IfOk-map (set_pair-SetTo s l (with_post w))
        (λ s' t. applied d sem prog l v w s s' i e made check t)

  checks-Transformed :
      (l : Label) (v : d.Value) (s : Analysis d.Value) (i : Instruction) (checks : List Assertion)
      → instruction_at prog l ≡ ok i
      → assertions_at prog l ≡ ok checks
      → (t : Bool) → any_fails d v checks l ≡ ok t
      → IfOk (Transformed d sem prog l v s) (if t then set_error s l else apply d s l v i)
  unfolding set_error
  checks-Transformed l v s i checks e c true bad =
      IfOk-map (set_pair-SetTo (record s { failed = true }) l with_error)
        (λ s' t. failed-Transformed d sem prog l v s s' t)
  checks-Transformed l v s i checks e c false good =
      applies-Transformed l v s i e λ x k j others ej n eo.
        subst (λ cs. All (λ a. sem.Holds a l x) cs) (ok-injective (sym c ∙ eo))
          (passes d sem prog v checks l x good k)

  checked-Transformed :
      (l : Label) (v : d.Value) (s : Analysis d.Value) (i : Instruction)
      → instruction_at prog l ≡ ok i
      → IfOk (Transformed d sem prog l v s) (checked d prog s l v i)
  unfolding checked
  checked-Transformed l v s i e = IfOk-bind (pair_at s l) λ p ep. elim (Bool-cases p.error) [
    | inl bad ↦ rw bad (yields (kept-Transformed d sem prog l v s p ep bad))
    | inr good ↦ rw good (
        IfOk-bind (assertions_at prog l) λ checks c.
          IfOk-bind (any_fails d v checks l) λ t f. checks-Transformed l v s i checks e c t f)
  ]

  pub transform_to_post-Transformed :
      (l : Label) (v : d.Value) (s : Analysis d.Value)
      → IfOk (Transformed d sem prog l v s) (transform_to_post d prog s l v)
  unfolding transform_to_post
  transform_to_post-Transformed l v s = IfOk-bind (instruction_at prog l) λ i e.
      elim (Bool-cases (is_increment i)) [
        | inl counts ↦ rw counts (
            applies-Transformed l v s i e λ x k j others ej n eo.
              absurd (clash (sym counts ∙ ap is_increment (ok-injective (sym e ∙ ej)) ∙ n)))
        | inr plain ↦ rw plain (checked-Transformed l v s i e)
      ]
    where
      clash : true ≡ false → ⊥
      clash h = cc

  -- The join holds what it starts from, and the states after each node.
  join_posts-Denotes :
      (s : Analysis d.Value) (prevs : LabelVec) (res : d.Value)
      → IfOk
          (λ r.
            ((x : sem.State) → sem.Denotes res x → sem.Denotes r x)
            × ((u : Label) (x : sem.State)
                → contains prevs u ≡ true
                → Post d sem prog s u x
                → sem.Denotes r x))
          (join_posts d s prevs res)
  unfolding join_posts contains get_post
  join_posts-Denotes s [] res = yields (λ x h. h, λ u x h p. absurd (clash h))
    where
      clash : false ≡ true → ⊥
      clash h = cc
  join_posts-Denotes s (prev ∷ rest) res = IfOk-bind_bind (pair_at s prev) _ _ λ p e.
      IfOk-map (join_posts-Denotes s rest (d.join res p.post)) λ r h. (
        λ x k. h.0 x (sem.join-left _ _ x k),
        λ u x m (q, eq, k). elim (Bool-cases (same_label u prev)) [
          | inl here ↦
              let same : q ≡ p =
                ok-injective (sym eq ∙ ap (pair_at s) ((same_label_iff u prev).0 here) ∙ e) in
              h.0 x (sem.join-right _ _ x (subst (λ r. sem.Denotes r.post x) same k))
          | inr there ↦ h.1 u x (ground arith) (q, eq, k)
        ],
      )

  pub join_all_prevs-Denotes :
      (s : Analysis d.Value) (l : Label)
      → same_label l entry ≡ false
      → IfOk
          (λ r.
            (u : Label) (x : sem.State) → Parent prog u l → Post d sem prog s u x → sem.Denotes r x)
          (join_all_prevs d prog s l)
  unfolding join_all_prevs
  join_all_prevs-Denotes s l n = rw n (
      IfOk-bind (parents_of prog.cfg l) λ prevs e.
        IfOk-map (join_posts-Denotes s prevs d.bottom) λ r h u x (others, eo, m) k.
          h.1 u x (subst (λ ps. contains ps u ≡ true) (ok-injective (sym eo ∙ e)) m) k)
