-- ===== src/Advancer/Topo/Graph.antt =====
-- The dictionaries `in_degree` and `adj` that `topological_sort` (engine/core/dag_advancer.py)
-- builds, and the nodes that it starts from.
use v10_engine.Prelude.{
  ℕ, ◌+◌, ◌≡◌, refl, ◌∙◌, ap, true, List, [], ◌∷◌, ◌++◌, arith, ◌==◌, elem, length, if◌then◌else◌,
  ◌||◌, ==_refl,
}
use v10_engine.Prelude.Int.{pos, up}
use v10_engine.Prelude.Dict.{get_or, put, get_or-put, keys, elem-keys-put, keys-put-Distinct}
use v10_engine.Prelude.Distinct.{missing-nil, count, count-append, Distinct, IsSubset}
use v10_engine.Advancer.{NodeSnapshot}
use v10_engine.Advancer.Topo.{Degrees, Successors, zero_degrees, add_deps, add_nodes, graph}
use v10_engine.Advancer.Topo.Count.{needs, remaining, ids}

-- The degrees are the values of f.
abbrev pub Holds : Degrees → (ℕ → ℕ) → Type 0
Holds deg f = (s : ℕ) → get_or s (pos 0) deg ≡ pos (f s)

add_deps-adj :
    (i : ℕ) (deps : List ℕ) (adj : Successors) (deg : Degrees) (s x : ℕ)
    → count s (get_or x [] (add_deps i deps (adj, deg)).0)
      ≡ count s (get_or x [] adj) + (if i == s then count x deps else 0)
unfolding add_deps count
add_deps-adj i [] adj deg s x = ground arith
add_deps-adj i (d ∷ deps) adj deg s x = ground (
  arith,
  add_deps-adj i deps (put d (get_or d [] adj ++ i ∷ []) adj)
      (put i (up (get_or i (pos 0) deg)) deg) s x,
  get_or-put d x (get_or d [] adj ++ i ∷ []) [] adj,
  count-append s (get_or d [] adj) (i ∷ []),
)

raised :
    (i : ℕ) (deg : Degrees) (f : ℕ → ℕ)
    → Holds deg f
    → Holds (put i (up (get_or i (pos 0) deg)) deg) (λ t. f t + (if i == t then 1 else 0))
unfolding up
raised i deg f h t =
    get_or-put i t (up (get_or i (pos 0) deg)) (pos 0) deg ∙ ground (arith, h i, h t)

add_deps-deg :
    (i : ℕ) (deps : List ℕ) (adj : Successors) (deg : Degrees) (f : ℕ → ℕ)
    → Holds deg f
    → Holds (add_deps i deps (adj, deg)).1 (λ s. f s + (if i == s then length deps else 0))
unfolding add_deps
add_deps-deg i [] adj deg f h s = rw (h s) (ground arith)
add_deps-deg i (d ∷ deps) adj deg f h s =
    add_deps-deg i deps (put d (get_or d [] adj ++ i ∷ []) adj)
      (put i (up (get_or i (pos 0) deg)) deg) (λ t. f t + (if i == t then 1 else 0))
      (raised i deg f h) s
    ∙ ap pos (ground arith)

add_deps-keys :
    (i : ℕ) (deps : List ℕ) (adj : Successors) (deg : Degrees) (j : ℕ)
    → elem i (keys deg) ≡ true
    → elem j (keys (add_deps i deps (adj, deg)).1) ≡ elem j (keys deg)
unfolding add_deps
add_deps-keys i [] adj deg j h = refl
add_deps-keys i (d ∷ deps) adj deg j h =
    let deg' = put i (up (get_or i (pos 0) deg)) deg in
    ground (
      arith,
      add_deps-keys i deps (put d (get_or d [] adj ++ i ∷ []) adj) deg' j,
      elem-keys-put i i (up (get_or i (pos 0) deg)) deg,
      elem-keys-put i j (up (get_or i (pos 0) deg)) deg,
      ==_refl i,
    )

add_deps-Distinct :
    (i : ℕ) (deps : List ℕ) (adj : Successors) (deg : Degrees)
    → Distinct (keys deg)
    → Distinct (keys (add_deps i deps (adj, deg)).1)
unfolding add_deps
add_deps-Distinct i [] adj deg h = h
add_deps-Distinct i (d ∷ deps) adj deg h =
    add_deps-Distinct i deps (put d (get_or d [] adj ++ i ∷ []) adj)
      (put i (up (get_or i (pos 0) deg)) deg) (keys-put-Distinct i _ deg h)

add_nodes-adj :
    (nodes : List NodeSnapshot) (g : Successors × Degrees) (s x : ℕ)
    → count s (get_or x [] (add_nodes nodes g).0) ≡ count s (get_or x [] g.0) + needs s x nodes
unfolding add_nodes needs
add_nodes-adj [] g s x = omega arith
add_nodes-adj (n ∷ nodes) g s x =
    omega (
      arith,
      add_nodes-adj nodes (add_deps n.id n.deps g) s x,
      add_deps-adj n.id n.deps g.0 g.1 s x,
    )

add_nodes-deg :
    (nodes : List NodeSnapshot) (g : Successors × Degrees) (f : ℕ → ℕ)
    → Holds g.1 f
    → Holds (add_nodes nodes g).1 (λ s. f s + remaining s [] nodes)
unfolding add_nodes remaining
add_nodes-deg [] g f h s = h s ∙ ap pos (omega arith)
add_nodes-deg (n ∷ nodes) g f h s =
    add_nodes-deg nodes (add_deps n.id n.deps g)
      (λ t. f t + (if n.id == t then length n.deps else 0)) (add_deps-deg n.id n.deps g.0 g.1 f h) s
    ∙ ap pos (ground (arith, missing-nil n.deps))

-- The keys of `in_degree` are the identifiers of the nodes, each once.
pub record KeysAre (deg : Degrees) (is : List ℕ) : Type 0 where
  pub same : (j : ℕ) → elem j (keys deg) ≡ elem j is
  pub once : Distinct (keys deg)

add_nodes-keys :
    (nodes : List NodeSnapshot) (g : Successors × Degrees) (is : List ℕ)
    → KeysAre g.1 is
    → IsSubset (ids nodes) is
    → KeysAre (add_nodes nodes g).1 is
unfolding add_nodes ids
add_nodes-keys [] g is k h = k
add_nodes-keys (n ∷ nodes) g is k h =
    add_nodes-keys nodes (add_deps n.id n.deps g) is
      (record {
        same = λ j.
            add_deps-keys n.id n.deps g.0 g.1 j
              (k.same n.id ∙ h n.id (ground (arith, ==_refl n.id)))
            ∙ k.same j;
        once = add_deps-Distinct n.id n.deps g.0 g.1 k.once;
      })
      (λ a m. h a (ground arith))

zero_degrees-Holds :
    (deg : Degrees) (nodes : List NodeSnapshot)
    → Holds deg (λ s. 0)
    → Holds (zero_degrees deg nodes) (λ s. 0)
unfolding zero_degrees
zero_degrees-Holds deg [] h = h
zero_degrees-Holds deg (n ∷ nodes) h =
    zero_degrees-Holds (put n.id (pos 0) deg) nodes
      (λ s. get_or-put n.id s (pos 0) (pos 0) deg ∙ ground (arith, h s))

zero_degrees-keys :
    (deg : Degrees) (nodes : List NodeSnapshot)
    → Distinct (keys deg)
    → Distinct (keys (zero_degrees deg nodes))
      × ((j : ℕ)
          → elem j (keys (zero_degrees deg nodes)) ≡ (elem j (keys deg) || elem j (ids nodes)))
unfolding zero_degrees ids
zero_degrees-keys deg [] h = (h, λ j. ground arith)
zero_degrees-keys deg (n ∷ nodes) h =
    let (once, same) =
      zero_degrees-keys (put n.id (pos 0) deg) nodes (keys-put-Distinct n.id (pos 0) deg h) in
    (once, λ j. same j ∙ ground (arith, elem-keys-put n.id j (pos 0) deg))

-- The in-degree of a node is the number of dependencies that it waits for.
pub graph-Holds : (nodes : List NodeSnapshot) → Holds (graph nodes).1 (λ s. remaining s [] nodes)
unfolding graph get_or
graph-Holds nodes s =
    add_nodes-deg nodes ([], zero_degrees [] nodes) (λ s. 0)
      (zero_degrees-Holds [] nodes (λ s. refl)) s
    ∙ ap pos (omega arith)

pub graph-keys : (nodes : List NodeSnapshot) → KeysAre (graph nodes).1 (ids nodes)
unfolding graph keys
graph-keys nodes =
    let (once, same) = zero_degrees-keys [] nodes tt in
    add_nodes-keys nodes ([], zero_degrees [] nodes) (ids nodes)
      (record { same = same; once = once }) (λ a m. m)

-- A node stands among the successors of x as often as x stands among its dependencies.
pub graph-adj :
    (nodes : List NodeSnapshot) (s x : ℕ) → count s (get_or x [] (graph nodes).0) ≡ needs s x nodes
unfolding graph get_or count
graph-adj nodes s x = add_nodes-adj nodes ([], zero_degrees [] nodes) s x ∙ omega arith
