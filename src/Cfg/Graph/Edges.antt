-- ===== src/Cfg/Graph/Edges.antt =====
-- A graph as a set of nodes and a relation between them: what `Cfg` of src/cfg/cfg.hpp refines, and the
-- changes of `CfgBuilder` of src/ir/cfg_builder.cpp.
use prevail.Prelude.{
  ◌≡◌, refl, ap, ◌∙◌, Bool, true, false, not, ◌&&◌, ◌||◌, Option, none, some, arith,
}
use prevail.Prelude.Result.{Returns, returns, Returns-bind}
use prevail.Cfg.Label.{Label, same_label}
use prevail.Cfg.Order.{contains, find, emplace}
use prevail.Cfg.Order.Laws.{
  contains-insert, contains-erase, find-modify, find-emplace, same_label_iff,
}
use prevail.Cfg.Graph.{
  Adjacent, Cfg, entry, exit, no_neighbours, has_node, is_some, found, get_node, change, with_child,
  with_parent, without_child, without_parent, without_children, add_child, remove_child,
}
use mathlib.Core.Option

abbrev pub child_in : Option Adjacent → Label → Bool
child_in none y = false
child_in (some n) y = contains n.children y

abbrev pub parent_in : Option Adjacent → Label → Bool
parent_in none x = false
parent_in (some n) x = contains n.parents x

abbrev pub Relation : Type 0
Relation = Label → Label → Bool

-- The nodes, the children of each, and the parents of each: `P x y` says that x is a parent of y.
pub record Adjacency (g : Cfg) (V : Label → Bool) (C P : Relation) : Type 0 where
  pub nodes : (l : Label) → has_node g l ≡ V l
  pub children : (x y : Label) → child_in (find x g.neighbours) y ≡ C x y
  pub parents : (x y : Label) → parent_in (find y g.neighbours) x ≡ P x y

-- A graph whose parents and children are one relation.
abbrev pub Represents : Cfg → (Label → Bool) → Relation → Type 0
Represents g V E = Adjacency g V E E

abbrev pub is_edge : Label → Label → Relation
is_edge a b x y = same_label x a && same_label y b

abbrev pub with_edge : Label → Label → Relation → Relation
with_edge a b R x y = is_edge a b x y || R x y

abbrev pub without_edge : Label → Label → Relation → Relation
without_edge a b R x y = R x y && not (is_edge a b x y)

module _ (b : Label) where
  child_in-with_child :
      (o : Option Adjacent) (y : Label)
      → child_in (Option.map (with_child b) o) y ≡ (same_label y b && is_some o || child_in o y)
  child_in-with_child none y = ground arith
  child_in-with_child (some n) y = ground (arith, contains-insert b n.children y)

  parent_in-with_parent :
      (o : Option Adjacent) (x : Label)
      → parent_in (Option.map (with_parent b) o) x ≡ (same_label x b && is_some o || parent_in o x)
  parent_in-with_parent none x = ground arith
  parent_in-with_parent (some n) x = ground (arith, contains-insert b n.parents x)

  child_in-without_child :
      (o : Option Adjacent) (y : Label)
      → child_in (Option.map (without_child b) o) y ≡ (child_in o y && not (same_label y b))
  child_in-without_child none y = refl
  child_in-without_child (some n) y = contains-erase b n.children y

  parent_in-without_parent :
      (o : Option Adjacent) (x : Label)
      → parent_in (Option.map (without_parent b) o) x ≡ (parent_in o x && not (same_label x b))
  parent_in-without_parent none x = refl
  parent_in-without_parent (some n) x = contains-erase b n.parents x

-- A change that leaves the parents, or the children, of a node.
same_parents :
    (f : Adjacent → Adjacent)
    → ((n : Adjacent) → (f n).parents ≡ n.parents)
    → (o : Option Adjacent) (x : Label) → parent_in (Option.map f o) x ≡ parent_in o x
same_parents f h none x = refl
same_parents f h (some n) x = ap (λ s. contains s x) (h n)

same_children :
    (f : Adjacent → Adjacent)
    → ((n : Adjacent) → (f n).children ≡ n.children)
    → (o : Option Adjacent) (y : Label) → child_in (Option.map f o) y ≡ child_in o y
same_children f h none y = refl
same_children f h (some n) y = ap (λ s. contains s y) (h n)

same_nodes : (f : Adjacent → Adjacent) (o : Option Adjacent) → is_some (Option.map f o) ≡ is_some o
same_nodes f none = refl
same_nodes f (some n) = refl

no_children : (o : Option Adjacent) (y : Label) → child_in (Option.map without_children o) y ≡ false
unfolding contains
no_children none y = refl
no_children (some n) y = refl

missing : (o : Option Adjacent) → is_some o ≡ false → o ≡ none
missing none h = refl
missing (some n) h = cc

module _ {g : Cfg} {V : Label → Bool} {C P : Relation} (r : Adjacency g V C P) where
  changed-nodes :
      (a : Label) (f : Adjacent → Adjacent) (l : Label) → has_node (change a f g) l ≡ V l
  unfolding change has_node
  changed-nodes a f l =
      ground (arith, find-modify a f g.neighbours l, same_nodes f (find l g.neighbours), r.nodes l)

  pub with_child-Adjacency :
      (a b : Label) → V a ≡ true → Adjacency (change a (with_child b) g) V (with_edge a b C) P
  unfolding change has_node
  with_child-Adjacency a b va = record {
    nodes = λ l. changed-nodes a (with_child b) l;
    children = λ x y. ground (
      arith,
      find-modify a (with_child b) g.neighbours x,
      r.children x y,
      r.nodes a,
      child_in-with_child b (find a g.neighbours) y,
      same_label_iff x a,
      r.children a y,
    );
    parents = λ x y. ground (
      arith,
      find-modify a (with_child b) g.neighbours y,
      r.parents x y,
      same_parents (with_child b) (λ n. refl) (find y g.neighbours) x,
    );
  }

  pub with_parent-Adjacency :
      (a b : Label) → V b ≡ true → Adjacency (change b (with_parent a) g) V C (with_edge a b P)
  unfolding change has_node
  with_parent-Adjacency a b vb = record {
    nodes = λ l. changed-nodes b (with_parent a) l;
    children = λ x y. ground (
      arith,
      find-modify b (with_parent a) g.neighbours x,
      r.children x y,
      same_children (with_parent a) (λ n. refl) (find x g.neighbours) y,
    );
    parents = λ x y. ground (
      arith,
      find-modify b (with_parent a) g.neighbours y,
      r.parents x y,
      r.nodes b,
      parent_in-with_parent a (find b g.neighbours) x,
      same_label_iff y b,
      r.parents x b,
    );
  }

  pub without_child-Adjacency :
      (a b : Label) → Adjacency (change a (without_child b) g) V (without_edge a b C) P
  unfolding change has_node
  without_child-Adjacency a b = record {
    nodes = λ l. changed-nodes a (without_child b) l;
    children = λ x y. ground (
      arith,
      find-modify a (without_child b) g.neighbours x,
      r.children x y,
      child_in-without_child b (find x g.neighbours) y,
    );
    parents = λ x y. ground (
      arith,
      find-modify a (without_child b) g.neighbours y,
      r.parents x y,
      same_parents (without_child b) (λ n. refl) (find y g.neighbours) x,
    );
  }

  pub without_parent-Adjacency :
      (a b : Label) → Adjacency (change b (without_parent a) g) V C (without_edge a b P)
  unfolding change has_node
  without_parent-Adjacency a b = record {
    nodes = λ l. changed-nodes b (without_parent a) l;
    children = λ x y. ground (
      arith,
      find-modify b (without_parent a) g.neighbours x,
      r.children x y,
      same_children (without_parent a) (λ n. refl) (find x g.neighbours) y,
    );
    parents = λ x y. ground (
      arith,
      find-modify b (without_parent a) g.neighbours y,
      r.parents x y,
      parent_in-without_parent a (find y g.neighbours) x,
    );
  }

  -- The node loses all its children.
  pub childless-Adjacency :
      (a : Label)
      → Adjacency (change a without_children g) V (λ x y. C x y && not (same_label x a)) P
  unfolding change has_node
  childless-Adjacency a = record {
    nodes = λ l. changed-nodes a without_children l;
    children = λ x y. ground (
      arith,
      find-modify a without_children g.neighbours x,
      r.children x y,
      no_children (find x g.neighbours) y,
    );
    parents = λ x y. ground (
      arith,
      find-modify a without_children g.neighbours y,
      r.parents x y,
      same_parents without_children (λ n. refl) (find y g.neighbours) x,
    );
  }

  -- A new node has no edges.
  pub emplace-Adjacency :
      (l : Label)
      → V l ≡ false
      → Adjacency
          (record { neighbours = emplace l no_neighbours g.neighbours })
          (λ k. same_label k l || V k)
          C
          P
  unfolding has_node contains
  emplace-Adjacency l new =
      let none_yet = missing (find l g.neighbours) (r.nodes l ∙ new) in
      let find_new = λ (k : Label). find-emplace l no_neighbours g.neighbours k none_yet in
      record {
        nodes = λ k. ground (arith, find_new k, r.nodes k);
        children = λ x y. ground (arith, find_new x, r.children x y, same_label_iff x l);
        parents = λ x y. ground (arith, find_new y, r.parents x y, same_label_iff y l);
      }

-- Two relations that agree are one.
pub Adjacency-same :
    {g : Cfg} {V W : Label → Bool} {C C' P P' : Relation}
    → ((l : Label) → V l ≡ W l)
    → ((x y : Label) → C x y ≡ C' x y)
    → ((x y : Label) → P x y ≡ P' x y)
    → Adjacency g V C P
    → Adjacency g W C' P'
Adjacency-same v c p r = record {
  nodes = λ l. r.nodes l ∙ v l;
  children = λ x y. r.children x y ∙ c x y;
  parents = λ x y. r.parents x y ∙ p x y;
}

-- An edge between two nodes is added; the entry has no parents and the exit no children.
pub add_child-Represents :
    {g : Cfg} {V : Label → Bool} {E : Relation} (a b : Label)
    → Represents g V E
    → V a ≡ true
    → V b ≡ true
    → same_label a exit ≡ false
    → same_label b entry ≡ false
    → Returns (λ g'. Represents g' V (with_edge a b E)) (add_child g a b)
unfolding add_child
add_child-Represents {g} a b r va vb na nb =
    rw (na, nb, r.nodes a, va, r.nodes b, vb)
      (returns (with_parent-Adjacency (with_child-Adjacency r a b va) a b vb))

-- A node's record is found, with its children.
pub get_node-Returns :
    {g : Cfg} {V : Label → Bool} {C P : Relation} (a : Label)
    → Adjacency g V C P
    → V a ≡ true
    → Returns (λ n. find a g.neighbours ≡ some n) (get_node g a)
unfolding get_node has_node
get_node-Returns {g} a r va = held (find a g.neighbours) refl (r.nodes a ∙ va)
  where
    held :
        (o : Option Adjacent)
        → find a g.neighbours ≡ o
        → is_some o ≡ true
        → Returns (λ n. find a g.neighbours ≡ some n) (found o)
    held none e h = cc
    held (some n) e h = returns e

pub remove_child-Represents :
    {g : Cfg} {V : Label → Bool} {E : Relation} (a b : Label)
    → Represents g V E
    → V a ≡ true
    → V b ≡ true
    → Returns (λ g'. Represents g' V (without_edge a b E)) (remove_child g a b)
unfolding remove_child
remove_child-Represents {g} a b r va vb = Returns-bind (get_node-Returns a r va) λ n en.
    Returns-bind (get_node-Returns b r vb)
      λ m em. returns (without_parent-Adjacency (without_child-Adjacency r a b) a b)
