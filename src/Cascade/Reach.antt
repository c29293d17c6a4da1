-- ===== src/Cascade/Reach.antt =====
-- What the search of engine/core/cascade.py along the edges returns: `_get_downstream_nodes`.
use v10_engine.Prelude.{
  ◌↔◌, ℕ, zero, suc, ◌+◌, ◌≡◌, refl, ◌∙◌, ap, ◌⊎◌, inl, inr, true, not, ◌&&◌, ◌||◌, List, [], ◌∷◌,
  ◌++◌, map, arith, ◌==◌, ==_refl, elem, elem-append, length, length-append, Bool-cases,
}
use v10_engine.Prelude.Distinct.{Distinct, IsSubset, length-le_of_subset, Distinct-append}
use v10_engine.Store.{Edge}
use v10_engine.Cascade.Downstream.{
  Search, children, explore, explore_from, start_at, downstream_nodes,
}
use v10_engine.Cascade.Fresh.{fresh, elem-fresh, fresh-Distinct, visit_children-eq-fresh}

-- Some path of active edges leads from i to the node.
pub data Reaches (edges : List Edge) (i : ℕ) : ℕ → Type 0 where
  edge : (a : ℕ) → elem a (children edges i) ≡ true → Reaches edges i a
  beyond :
      {a : ℕ} (b : ℕ) → Reaches edges i a → elem b (children edges a) ≡ true → Reaches edges i b

List-cases : (l : List ℕ) → (l ≡ []) ⊎ ((x : ℕ) × (q : List ℕ) × (l ≡ x ∷ q))
List-cases [] = inl refl
List-cases (x ∷ q) = inr (x, q, refl)

targets : List Edge → List ℕ
targets edges = map (λ e. e.to_node_id) edges

length-targets : (edges : List Edge) → length (targets edges) ≡ length edges
unfolding targets
length-targets [] = refl
length-targets (e ∷ edges) = ap suc (length-targets edges)

children-IsSubset : (edges : List Edge) (i : ℕ) → IsSubset (children edges i) (targets edges)
unfolding children targets
children-IsSubset [] i a m = m
children-IsSubset (e ∷ edges) i a m = ground (arith, children-IsSubset edges i a)

module _ (edges : List Edge) (i : ℕ) where
  record Inv (s : Search) : Type 0 where
    same : s.result ≡ s.visited
    once : Distinct s.visited
    known : IsSubset s.visited (targets edges)
    sound : (a : ℕ) → elem a s.visited ≡ true → Reaches edges i a
    from : (a : ℕ) → elem a s.queue ≡ true → (a ≡ i) ⊎ Reaches edges i a
    followed :
        (a : ℕ)
        → (a ≡ i) ⊎ (elem a s.visited ≡ true)
        → (elem a s.queue ≡ true) ⊎ IsSubset (children edges a) s.visited

  child-Reaches :
      (x b : ℕ) → (x ≡ i) ⊎ Reaches edges i x → elem b (children edges x) ≡ true → Reaches edges i b
  child-Reaches x b (inl e) m = edge b (rw (← e) m)
  child-Reaches x b (inr r) m = beyond b r m

  all_followed :
      (s : Search)
      → Inv s
      → s.queue ≡ []
      → (a : ℕ) → (a ≡ i) ⊎ (elem a s.visited ≡ true)
      → IsSubset (children edges a) s.visited
  all_followed s inv z a h = elim (inv.followed a h) [
    | inl m ↦ absurd (let m' = rw z at m in ground arith)
    | inr f ↦ f
  ]

  start-Inv : Inv (start_at i)
  start-Inv = record {
    same = refl;
    once = tt;
    known = λ a m. absurd (ground arith);
    sound = λ a m. absurd (ground arith);
    from = λ a m. inl (ground arith);
    followed = λ a h. ground (arith, ==_refl i);
  }

  module _ (x : ℕ) (q : List ℕ) (s : Search) (inv : Inv s) (popped : s.queue ≡ x ∷ q) where
    new : List ℕ
    new = fresh s.visited (children edges x)

    after : Search
    after = record { visited = s.visited ++ new; queue = q ++ new; result = s.result ++ new }

    elem-new : (a : ℕ) → elem a new ≡ (elem a (children edges x) && not (elem a s.visited))
    unfolding new
    elem-new a = elem-fresh a s.visited (children edges x)

    elem-after :
        (a : ℕ) → elem a (s.visited ++ new) ≡ (elem a s.visited || elem a (children edges x))
    elem-after a = elem-append a s.visited new ∙ ground (arith, elem-new a)

    from-popped : (x ≡ i) ⊎ Reaches edges i x
    from-popped = inv.from x (rw popped (ground (arith, ==_refl x)))

    child_sound : (a : ℕ) → elem a (children edges x) ≡ true → Reaches edges i a
    child_sound a m = child-Reaches x a from-popped m

    after-known : IsSubset (s.visited ++ new) (targets edges)
    after-known a m = ground (arith, elem-after a, inv.known a, children-IsSubset edges x a)

    after_sound : (a : ℕ) → elem a (s.visited ++ new) ≡ true → Reaches edges i a
    after_sound a m = elim (Bool-cases (elem a s.visited)) [
      | inl e ↦ inv.sound a e
      | inr e ↦ child_sound a (ground (arith, elem-after a))
    ]

    after-from : (a : ℕ) → elem a (q ++ new) ≡ true → (a ≡ i) ⊎ Reaches edges i a
    after-from a m = elim (Bool-cases (elem a q)) [
      | inl e ↦ inv.from a (rw popped (ground arith))
      | inr e ↦ inr (child_sound a (ground (arith, elem-append a q new, elem-new a)))
    ]

    IsSubset-after :
        (a : ℕ)
        → IsSubset (children edges a) s.visited
        → IsSubset (children edges a) (s.visited ++ new)
    IsSubset-after a h b m = ground (arith, h b m, elem-after b)

    after-followed-old :
        (a : ℕ)
        → (elem a s.queue ≡ true) ⊎ IsSubset (children edges a) s.visited
        → (elem a (q ++ new) ≡ true) ⊎ IsSubset (children edges a) (s.visited ++ new)
    after-followed-old a (inr h) = inr (IsSubset-after a h)
    after-followed-old a (inl m) = elim (Bool-cases (x == a)) [
      | inl e ↦
          let same : x ≡ a = ground arith in inr (rw (← same) (λ b n. ground (arith, elem-after b)))
      | inr e ↦ let m' = rw popped at m in inl (elem-append a q new ∙ ground arith)
    ]

    after-followed :
        (a : ℕ)
        → (a ≡ i) ⊎ (elem a (s.visited ++ new) ≡ true)
        → (elem a (q ++ new) ≡ true) ⊎ IsSubset (children edges a) (s.visited ++ new)
    after-followed a (inl e) = after-followed-old a (inv.followed a (inl e))
    after-followed a (inr m) = elim (Bool-cases (elem a s.visited)) [
      | inl e ↦ after-followed-old a (inv.followed a (inr e))
      | inr e ↦ inl (elem-append a q new ∙ ground (arith, elem-after a, elem-new a))
    ]

    new-Distinct : Distinct new
    unfolding new
    new-Distinct = fresh-Distinct s.visited (children edges x)

    after-Inv : Inv after
    unfolding after
    after-Inv = record {
      same = ap (λ l. l ++ new) inv.same;
      once = Distinct-append s.visited new inv.once new-Distinct (λ a m. elem-new a ∙ ground arith);
      known = after-known;
      sound = after_sound;
      from = after-from;
      followed = after-followed;
    }

    after-measure :
        (fuel : ℕ)
        → length s.queue + suc (length edges) ≡ length s.visited + suc fuel
        → length after.queue + suc (length edges) ≡ length after.visited + fuel
    unfolding after
    after-measure fuel e =
        omega (arith, ap length popped, length-append q new, length-append s.visited new)

    explore_from-after : (rest : Search → Search) → explore_from rest edges s (x ∷ q) ≡ rest after
    unfolding explore_from after new
    explore_from-after rest =
        ap rest (visit_children-eq-fresh (children edges x) (record s { queue = q }))

  -- The search ends with an empty queue.
  explore-Inv :
      (fuel : ℕ) (s : Search)
      → Inv s
      → length s.queue + suc (length edges) ≡ length s.visited + fuel
      → Inv (explore fuel edges s) × ((explore fuel edges s).queue ≡ [])
  unfolding explore
  explore-Inv zero s inv e = absurd (
      omega (
        arith,
        length-le_of_subset s.visited (targets edges) inv.once inv.known,
        length-targets edges,
      ))
  explore-Inv (suc fuel) s inv e = elim (List-cases s.queue) [
    | inl none_left ↦ rw (none_left, explore_from) (inv, none_left)
    | inr (x, q, popped) ↦
        rw (popped, explore_from-after x q s inv popped (explore fuel edges))
          (explore-Inv fuel (after x q s inv popped) (after-Inv x q s inv popped)
            (after-measure x q s inv popped fuel e))
  ]

  Reaches-visited :
      (s : Search) → Inv s → s.queue ≡ [] → (a : ℕ) → Reaches edges i a → elem a s.visited ≡ true
  Reaches-visited s inv z _ (edge a m) = all_followed s inv z i (inl refl) a m
  Reaches-visited s inv z _ (beyond b r m) =
      all_followed s inv z _ (inr (Reaches-visited s inv z _ r)) b m

-- The search returns, once each, exactly the nodes to which a path of active edges leads from the
-- changed one, itself included only where it lies on a cycle.
pub downstream_nodes_exact :
    (edges : List Edge) (i : ℕ)
    → Distinct (downstream_nodes edges i)
      × ((a : ℕ) → (elem a (downstream_nodes edges i) ≡ true) ↔ Reaches edges i a)
unfolding downstream_nodes
downstream_nodes_exact edges i =
    let (inv, z) =
      explore-Inv edges i (suc (suc (length edges))) (start_at i) (start-Inv edges i)
        (omega arith) in
    (
      rw inv.same inv.once,
      λ a. (
        rw inv.same (inv.sound a),
        rw inv.same (λ r.
            Reaches-visited edges i (explore (suc (suc (length edges))) edges (start_at i)) inv z a
              r),
      ),
    )
