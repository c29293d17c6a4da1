-- ===== src/Advancer/Topo/Total.antt =====
-- When `topological_sort` of engine/core/dag_advancer.py returns an order, and when it raises.
use v10_engine.Prelude.{
  ℕ, zero, suc, ◌<◌, ◌≡◌, refl, ap, true, false, none, some, List, [], ◌∷◌, ◌++◌, arith, ◌==◌, elem,
  length, Bool-cases, ==_refl, inl, inr, append-nil, All, Option-cases,
}
use v10_engine.Prelude.Distinct.{missing, Distinct, IsSubset, length-le_of_subset}
use v10_engine.Advancer.{NodeSnapshot}
use v10_engine.Advancer.Topo.{search_order, topological_sort}
use v10_engine.Advancer.Topo.Count.{remaining, ids}
use v10_engine.Advancer.Topo.Order.{
  length-ids, search_order-Done, placed_of_missing, sort_cases, topological_sort-IsTopological,
}

missing_zero :
    (placed deps : List ℕ)
    → ((d : ℕ) → elem d deps ≡ true → elem d placed ≡ true)
    → missing placed deps ≡ 0
unfolding missing
missing_zero placed [] h = refl
missing_zero placed (d ∷ deps) h =
    ground (arith, h d, ==_refl d, missing_zero placed deps (λ a m. h a (ground arith)))

remaining_zero :
    (s : ℕ) (placed : List ℕ) (nodes : List NodeSnapshot)
    → All (λ n. n.id ≡ s → (d : ℕ) → elem d n.deps ≡ true → elem d placed ≡ true) nodes
    → remaining s placed nodes ≡ 0
unfolding remaining
remaining_zero s placed [] h = refl
remaining_zero s placed (n ∷ nodes) h = elim (Bool-cases (n.id == s)) [
  | inl same ↦ rw same (
      omega
        (arith, missing_zero placed n.deps (h.0 (ground arith)), remaining_zero s placed nodes h.1))
  | inr other ↦ rw other (omega (arith, remaining_zero s placed nodes h.1))
]

-- The dependencies of n are nodes, and rank lower.
abbrev pub Ranked : (ℕ → ℕ) → List ℕ → NodeSnapshot → Type 0
Ranked rank is n = (d : ℕ) → elem d n.deps ≡ true → (elem d is ≡ true) × (rank d < rank n.id)

All-map {ℓ} :
    {A : Type ℓ} {P Q : A → Type 0} (xs : List A) → ((x : A) → P x → Q x) → All P xs → All Q xs
All-map [] f h = tt
All-map (x ∷ xs) f h = (f x h.0, All-map xs f h.1)

descent :
    (rank : ℕ → ℕ) (nodes : List NodeSnapshot) (order : List ℕ)
    → All (Ranked rank (ids nodes)) nodes
    → ((s : ℕ) → elem s (ids nodes) ≡ true → remaining s order nodes ≡ 0 → elem s order ≡ true)
    → (k s : ℕ) → rank s < k
    → elem s (ids nodes) ≡ true
    → elem s order ≡ true
descent rank nodes order ranked free zero s lt m = absurd (omega arith)
descent rank nodes order ranked free (suc k) s lt m = free s m (
    remaining_zero s order nodes (
      All-map nodes
        (λ n r e d i.
          descent rank nodes order ranked free k d (let e' = ap rank e in omega (arith, (r d i).1))
            (r d i).0)
        ranked))

-- Where the nodes can be ranked so that every dependency ranks lower, an order is found.
pub topological_sort_total :
    (rank : ℕ → ℕ) (nodes : List NodeSnapshot)
    → Distinct (ids nodes)
    → All (Ranked rank (ids nodes)) nodes
    → (order : List ℕ) × (topological_sort nodes ≡ some order)
unfolding topological_sort
topological_sort_total rank nodes unique ranked =
    let done = search_order-Done nodes in
    let order = (search_order nodes).0 in
    let once : Distinct order = rw append-nil at done.inv.once in
    let known : IsSubset order (ids nodes) = rw append-nil at done.inv.known in
    let free = rw append-nil at done.inv.all_free in
    let covers : IsSubset (ids nodes) order =
      λ s m. descent rank nodes order ranked free (suc (rank s)) s (omega arith) m in
    let long : length order ≡ length nodes = omega (
      arith,
      length-ids nodes,
      length-le_of_subset (ids nodes) order unique covers,
      length-le_of_subset order (ids nodes) once known,
    ) in
    (order, ground arith)

module _ (n : NodeSnapshot) (after : List NodeSnapshot) where
  missing_of_remaining :
      (placed : List ℕ) (before : List NodeSnapshot)
      → remaining n.id placed (before ++ n ∷ after) ≡ 0
      → missing placed n.deps ≡ 0
  unfolding remaining
  missing_of_remaining placed [] z = ground (arith, ==_refl n.id)
  missing_of_remaining placed (b ∷ before) z = missing_of_remaining placed before (omega arith)

  elem-ids : (before : List NodeSnapshot) → elem n.id (ids (before ++ n ∷ after)) ≡ true
  unfolding ids
  elem-ids [] = ground (arith, ==_refl n.id)
  elem-ids (b ∷ before) = ground (arith, elem-ids before)

-- A dependency that is no node of the DAG, such as one of another DAG, makes the sort raise, as a
-- cycle does.
pub topological_sort_dangling :
    (before after : List NodeSnapshot) (n : NodeSnapshot) (d : ℕ)
    → elem d n.deps ≡ true
    → elem d (ids (before ++ n ∷ after)) ≡ false
    → topological_sort (before ++ n ∷ after) ≡ none
topological_sort_dangling before after n d m absent =
    let nodes = before ++ n ∷ after in
    elim (Option-cases (topological_sort nodes)) [
      | inl e ↦ e
      | inr (order, e) ↦
          let sorted_nodes = topological_sort-IsTopological nodes e in
          let inv = (search_order-Done nodes).inv in
          let same = (sort_cases nodes e).0 in
          let z : remaining n.id order nodes ≡ 0 =
            (rw (append-nil, same) at inv.free) n.id
              (sorted_nodes.covers n.id (elem-ids n after before)) in
          let placed =
            placed_of_missing order n.deps d (missing_of_remaining n after order before z) m in
          absurd (ground (arith, sorted_nodes.known d placed))
    ]
