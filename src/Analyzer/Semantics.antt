-- ===== src/Analyzer/Semantics.antt =====
-- What the abstract states of src/fwd_analyzer.cpp mean: the laws of a domain over concrete states,
-- the states that reach a node, and the order of a graph's components.
use prevail.Prelude.{◌≡◌, true, false, Bool, ◌||◌, List}
use prevail.Prelude.Lists.{All}
use prevail.Prelude.Result.{ok}
use prevail.Cfg.Label.{Label, same_label}
use prevail.Cfg.Order.{LabelVec, contains}
use prevail.Cfg.Graph.{entry, parents_of}
use prevail.Cfg.Wto.{CycleOrLabel, vertex, cycle, WtoPartition, nil, cons}
use prevail.Ir.Syntax.{Instruction, Assertion}
use prevail.Ir.Program.{Program, instruction_at, assertions_at}
use prevail.Analyzer.{Domain, InvariantMapPair, Analysis, is_increment, pair_at}

-- `Denotes v x` says that the abstract value describes the state. Widening needs no law.
pub record Semantics (d : Domain) : Type 1 where
  pub State : Type 0
  pub Step : Instruction → State → State → Type 0
  pub Holds : Assertion → Label → State → Type 0
  pub Denotes : d.Value → State → Type 0
  pub le-Denotes : (a b : d.Value) (x : State) → d.le a b ≡ true → Denotes a x → Denotes b x
  pub join-left : (a b : d.Value) (x : State) → Denotes a x → Denotes (d.join a b) x
  pub join-right : (a b : d.Value) (x : State) → Denotes b x → Denotes (d.join a b) x
  pub meet-Denotes :
      (a b : d.Value) (x : State) → Denotes a x → Denotes b x → Denotes (d.meet a b) x
  pub narrow-Denotes :
      (a b : d.Value) (x : State) → Denotes a x → Denotes b x → Denotes (d.narrow a b) x
  pub transform-Denotes :
      (a b : d.Value) (i : Instruction) (x y : State)
      → d.transform a i ≡ ok b
      → Denotes a x
      → Step i x y
      → Denotes b y
  pub fails-Holds :
      (v : d.Value) (a : Assertion) (l : Label) (x : State)
      → d.fails v a l ≡ ok false
      → Denotes v x
      → Holds a l x
  pub is_bottom-empty : (v : d.Value) (x : State) → d.is_bottom v ≡ true → ¬ Denotes v x

-- An edge of the graph.
abbrev pub Parent : Program → Label → Label → Type 0
Parent prog u v =
    (prevs : LabelVec) × (parents_of prog.cfg v ≡ ok prevs) × (contains prevs u ≡ true)

module _ (d : Domain) (sem : Semantics d) (prog : Program) where
  -- The states that executions bring to a node.
  pub data Reaches (Start : sem.State → Type 0) : Label → sem.State → Type 0 where
    begin : (x : sem.State) → Start x → Reaches Start entry x
    move :
        (u v : Label) (i : Instruction) (x y : sem.State)
        → Reaches Start u x
        → instruction_at prog u ≡ ok i
        → sem.Step i x y
        → Parent prog u v
        → Reaches Start v y

  -- A node's assertions hold, unless it counts a loop's rounds.
  abbrev pub Checked : Label → sem.State → Type 0
  Checked v x =
      (i : Instruction) (checks : List Assertion)
      → instruction_at prog v ≡ ok i
      → is_increment i ≡ false
      → assertions_at prog v ≡ ok checks
      → All (λ a. sem.Holds a v x) checks

  abbrev pub Post : Analysis d.Value → Label → sem.State → Type 0
  Post s u x = (p : InvariantMapPair d.Value) × (pair_at s u ≡ ok p) × sem.Denotes p.post x

  -- What the analysis says of a state at a node.
  pub record Covered (s : Analysis d.Value) (v : Label) (x : sem.State) : Type 0 where
    pub pair : InvariantMapPair d.Value
    pub pair_at-ok : pair_at s v ≡ ok pair
    pub pre-Denotes : sem.Denotes pair.pre x
    pub assertions-Checked : Checked v x
    pub post-Denotes :
        (i : Instruction) (y : sem.State)
        → instruction_at prog v ≡ ok i
        → sem.Step i x y
        → sem.Denotes pair.post y

-- The labels of a component, and of components.
unfoldable mutual
  pub in_component : Label → CycleOrLabel → Bool
  in_component l (vertex v) = same_label v l
  in_component l (cycle cs) = in_partition l cs

  pub in_partition : Label → WtoPartition → Bool
  in_partition l nil = false
  in_partition l (cons c cs) = in_component l c || in_partition l cs

-- No edge leads back but to the head of a cycle; no label stands twice; the entry is none of them.
module _ (prog : Program) where
  unfoldable mutual
    pub IsOrdered : CycleOrLabel → Type 0
    IsOrdered (vertex v) = (¬ Parent prog v v) × (same_label v entry ≡ false)
    IsOrdered (cycle nil) = ⊥
    IsOrdered (cycle (cons (cycle c) cs)) = ⊥
    IsOrdered (cycle (cons (vertex h) cs)) =
        (in_partition h cs ≡ false) × (same_label h entry ≡ false) × AllOrdered cs

    pub AllOrdered : WtoPartition → Type 0
    AllOrdered nil = Unit
    AllOrdered (cons c cs) =
        IsOrdered c
        × AllOrdered cs
        × ((l : Label) → in_component l c ≡ true → in_partition l cs ≡ false)
        × ((u v : Label) → in_partition u cs ≡ true → in_component v c ≡ true → ¬ Parent prog u v)
