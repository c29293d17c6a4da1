-- ===== src/Advancer/Topo/Roots.antt =====
-- The starting queue of `topological_sort` (engine/core/dag_advancer.py): the nodes without
-- dependencies, sorted by priority.
use v10_engine.Prelude.{
  ℕ, ◌≡◌, refl, ◌∙◌, false, List, [], ◌∷◌, arith, ◌==◌, elem, ◌&&◌, ◌||◌, Bool-cases, ltb, inl, inr,
}
use v10_engine.Prelude.Int.{pos, is_zero}
use v10_engine.Prelude.Dict.{get_or, keys}
use v10_engine.Prelude.Distinct.{Distinct}
use v10_engine.Prelude.Sort.{insert_by, sorted}
use v10_engine.Advancer.{NodeSnapshot}
use v10_engine.Advancer.Topo.{Degrees, roots, graph}
use v10_engine.Advancer.Topo.Count.{remaining, ids}
use v10_engine.Advancer.Topo.Graph.{graph-Holds, graph-keys}

elem-insert_by :
    (key : ℕ → ℕ) (x a : ℕ) (xs : List ℕ) → elem a (insert_by key x xs) ≡ (x == a || elem a xs)
unfolding insert_by
elem-insert_by key x a [] = refl
elem-insert_by key x a (y ∷ ys) = ground (arith, elem-insert_by key x a ys)

insert_by-Distinct :
    (key : ℕ → ℕ) (x : ℕ) (xs : List ℕ)
    → elem x xs ≡ false
    → Distinct xs
    → Distinct (insert_by key x xs)
unfolding insert_by
insert_by-Distinct key x [] h d = (refl, tt)
insert_by-Distinct key x (y ∷ ys) h d = elim (Bool-cases (ltb (key y) (key x))) [
  | inl before ↦ rw before (
    elem-insert_by key x y ys ∙ ground (arith, d.0),
    insert_by-Distinct key x ys (ground arith) d.1,
  )
  | inr after ↦ rw after (h, d)
]

pub elem-sorted : (key : ℕ → ℕ) (a : ℕ) (xs : List ℕ) → elem a (sorted key xs) ≡ elem a xs
unfolding sorted
elem-sorted key a [] = refl
elem-sorted key a (x ∷ xs) =
    ground (arith, elem-insert_by key x a (sorted key xs), elem-sorted key a xs)

pub sorted-Distinct : (key : ℕ → ℕ) (xs : List ℕ) → Distinct xs → Distinct (sorted key xs)
unfolding sorted
sorted-Distinct key [] d = tt
sorted-Distinct key (x ∷ xs) d =
    insert_by-Distinct key x (sorted key xs) (elem-sorted key x xs ∙ d.0)
      (sorted-Distinct key xs d.1)

elem-roots :
    (deg : Degrees) (a : ℕ)
    → Distinct (keys deg)
    → elem a (roots deg) ≡ (elem a (keys deg) && is_zero (get_or a (pos 0) deg))
unfolding roots keys get_or
elem-roots [] a d = refl
elem-roots ((i, x) ∷ deg) a d = elim (Bool-cases (is_zero x)) [
  | inl root ↦ rw root (ground (arith, elem-roots deg a d.1, d.0))
  | inr waits ↦ rw waits (ground (arith, elem-roots deg a d.1, d.0))
]

roots-Distinct : (deg : Degrees) → Distinct (keys deg) → Distinct (roots deg)
unfolding roots keys
roots-Distinct [] d = tt
roots-Distinct ((i, x) ∷ deg) d = elim (Bool-cases (is_zero x)) [
  | inl root ↦ rw root (elem-roots deg i d.1 ∙ ground (arith, d.0), roots-Distinct deg d.1)
  | inr waits ↦ rw waits (roots-Distinct deg d.1)
]

-- The starting queue holds the nodes that wait for nothing, each once.
pub elem-roots-graph :
    (nodes : List NodeSnapshot) (a : ℕ)
    → elem a (roots (graph nodes).1) ≡ (elem a (ids nodes) && (remaining a [] nodes == 0))
unfolding is_zero
elem-roots-graph nodes a =
    elem-roots (graph nodes).1 a (graph-keys nodes).once
    ∙ ground (arith, (graph-keys nodes).same a, graph-Holds nodes a)

pub roots-graph-Distinct : (nodes : List NodeSnapshot) → Distinct (roots (graph nodes).1)
roots-graph-Distinct nodes = roots-Distinct (graph nodes).1 (graph-keys nodes).once
