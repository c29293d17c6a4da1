-- ===== src/Advancer/Topo/Order.antt =====
-- What `topological_sort` of engine/core/dag_advancer.py returns.
use v10_engine.Prelude.{
  ℕ, zero, suc, ◌+◌, ◌<◌, ◌≡◌, refl, ◌∙◌, ap, true, some, List, [], ◌∷◌, ◌++◌, arith, elem,
  elem-append, length, length-append, ==_refl, append-nil, append_assoc, All,
}
use v10_engine.Prelude.Dict.{get_or}
use v10_engine.Prelude.Distinct.{missing, Distinct, IsSubset, length-le_of_subset, subset_of_length}
use v10_engine.Prelude.Sort.{sorted}
use v10_engine.Advancer.{NodeSnapshot}
use v10_engine.Advancer.Topo.{
  Degrees, relax, kahn, graph, roots, priority_of, search_order, topological_sort,
}
use v10_engine.Advancer.Topo.Count.{remaining, ids}
use v10_engine.Advancer.Topo.Graph.{graph-Holds, graph-adj}
use v10_engine.Advancer.Topo.Roots.{
  elem-sorted, sorted-Distinct, elem-roots-graph, roots-graph-Distinct,
}
use v10_engine.Advancer.Topo.Loop.{Inv, round-Inv}

-- Each node stands where it waits for nothing but what stands before it.
abbrev pub IsOrdered : List NodeSnapshot → List ℕ → List ℕ → Type 0
IsOrdered nodes seen [] = Unit
IsOrdered nodes seen (x ∷ xs) = (remaining x seen nodes ≡ 0) × IsOrdered nodes (seen ++ x ∷ []) xs

IsOrdered-place :
    (nodes : List NodeSnapshot) (seen xs : List ℕ) (x : ℕ)
    → IsOrdered nodes seen xs
    → remaining x (seen ++ xs) nodes ≡ 0
    → IsOrdered nodes seen (xs ++ x ∷ [])
IsOrdered-place nodes seen [] x h z = (rw append-nil at z, tt)
IsOrdered-place nodes seen (y ∷ xs) x h z =
    (h.0, IsOrdered-place nodes (seen ++ y ∷ []) xs x h.1 (rw (append_assoc seen (y ∷ []) xs) z))

-- The loop ended: nothing waits in the queue, and the order is as the invariant says.
pub record Done (nodes : List NodeSnapshot) (run : List ℕ × List ℕ) : Type 0 where
  pub deg : Degrees
  pub inv : Inv nodes deg [] run.0
  pub ordered : IsOrdered nodes [] run.0
  pub drained : run.1 ≡ []

kahn-Done :
    (nodes : List NodeSnapshot) (fuel : ℕ) (deg : Degrees) (queue order : List ℕ)
    → length (ids nodes) < fuel + length order
    → Inv nodes deg queue order
    → IsOrdered nodes [] order
    → Done nodes (kahn fuel (graph nodes).0 deg queue order)
unfolding kahn
kahn-Done nodes zero deg queue order m inv o = absurd (
    omega (
      arith,
      length-le_of_subset (order ++ queue) (ids nodes) inv.once inv.known,
      length-append order queue,
    ))
kahn-Done nodes (suc fuel) deg [] order m inv o = record {
  deg = deg;
  inv = inv;
  ordered = o;
  drained = refl;
}
kahn-Done nodes (suc fuel) deg (x ∷ queue) order m inv o =
    kahn-Done nodes fuel (relax (get_or x [] (graph nodes).0) deg queue).0
      (relax (get_or x [] (graph nodes).0) deg queue).1 (order ++ x ∷ [])
      (omega (arith, length-append order (x ∷ [])))
      (round-Inv nodes deg x queue order (get_or x [] (graph nodes).0) (λ s. graph-adj nodes s x)
        inv)
      (IsOrdered-place nodes [] order x o
        (inv.free x (elem-append x order (x ∷ queue) ∙ ground (arith, ==_refl x))))

pub length-ids : (nodes : List NodeSnapshot) → length (ids nodes) ≡ length nodes
unfolding ids
length-ids [] = refl
length-ids (n ∷ nodes) = ap suc (length-ids nodes)

pub search_order-Done : (nodes : List NodeSnapshot) → Done nodes (search_order nodes)
unfolding search_order
search_order-Done nodes =
    let key = priority_of nodes in
    let start = roots (graph nodes).1 in
    let e = λ (a : ℕ). elem-sorted key a start ∙ elem-roots-graph nodes a in
    kahn-Done nodes (suc (length nodes)) (graph nodes).1 (sorted key start) []
      (omega (arith, length-ids nodes))
      (record {
        degrees = graph-Holds nodes;
        once = sorted-Distinct key start (roots-graph-Distinct nodes);
        known = λ a m. ground (arith, e a);
        free = λ s m. ground (arith, e s);
        all_free = λ s m z. ground (arith, e s);
      })
      tt

pub placed_of_missing :
    (placed deps : List ℕ) (d : ℕ)
    → missing placed deps ≡ 0
    → elem d deps ≡ true
    → elem d placed ≡ true
unfolding missing
placed_of_missing placed [] d z m = ground arith
placed_of_missing placed (x ∷ deps) d z m = ground (arith, placed_of_missing placed deps d)

remaining_at :
    (nodes : List NodeSnapshot) (seen xs : List ℕ) (i : ℕ) (before after : List ℕ)
    → IsOrdered nodes seen xs
    → xs ≡ before ++ i ∷ after
    → remaining i (seen ++ before) nodes ≡ 0
remaining_at nodes seen [] i [] after o e = ground arith
remaining_at nodes seen [] i (b ∷ before) after o e = ground arith
remaining_at nodes seen (x ∷ xs) i [] after o e = rw (append-nil seen) (ground (arith, o.0))
remaining_at nodes seen (x ∷ xs) i (b ∷ before) after o e =
    let same : x ≡ b = cc in
    let z =
      rw (append_assoc seen (x ∷ []) before) at
        (remaining_at nodes (seen ++ x ∷ []) xs i before after o.1 (cc)) in
    rw (← same) z

-- The dependencies of n stand before n wherever n stands in the order.
abbrev pub Respected : List ℕ → NodeSnapshot → Type 0
Respected order n =
    (d : ℕ)
    → elem d n.deps ≡ true
    → (before after : List ℕ) → order ≡ before ++ n.id ∷ after
    → elem d before ≡ true

All-Respected :
    (order : List ℕ) (nodes : List NodeSnapshot)
    → ((i : ℕ) (before after : List ℕ) → order ≡ before ++ i ∷ after → remaining i before nodes ≡ 0)
    → All (Respected order) nodes
unfolding remaining
All-Respected order [] h = tt
All-Respected order (n ∷ nodes) h = (
  λ d m before after e.
      placed_of_missing before n.deps d (ground (arith, h n.id before after e, ==_refl n.id)) m,
  All-Respected order nodes (λ i before after e. omega (arith, h i before after e)),
)

pub record IsTopological (nodes : List NodeSnapshot) (order : List ℕ) : Type 0 where
  pub once : Distinct order
  pub known : IsSubset order (ids nodes)
  pub covers : IsSubset (ids nodes) order
  pub respects : All (Respected order) nodes

pub sort_cases :
    (nodes : List NodeSnapshot) {order : List ℕ}
    → topological_sort nodes ≡ some order
    → ((search_order nodes).0 ≡ order) × (length order ≡ length nodes)
unfolding topological_sort
sort_cases nodes e = ground arith

-- A returned order lists every node once, and every node behind all of its dependencies.
pub topological_sort-IsTopological :
    (nodes : List NodeSnapshot) {order : List ℕ}
    → topological_sort nodes ≡ some order
    → IsTopological nodes order
topological_sort-IsTopological nodes {order} e =
    let (same, long) = sort_cases nodes e in
    let done = search_order-Done nodes in
    let once : Distinct order = rw (append-nil, same) at done.inv.once in
    let known : IsSubset order (ids nodes) = rw (append-nil, same) at done.inv.known in
    record {
      once = once;
      known = known;
      covers = subset_of_length order (ids nodes) once known (omega (arith, length-ids nodes));
      respects = All-Respected order nodes λ i before after split.
          remaining_at nodes [] order i before after (rw same at done.ordered) split;
    }
