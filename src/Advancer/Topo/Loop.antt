-- ===== src/Advancer/Topo/Loop.antt =====
-- The `while queue` loop of `topological_sort` (engine/core/dag_advancer.py): what one round does to
-- the in-degrees and the queue, and the invariant that it keeps.
use v10_engine.Prelude.{
  ℕ, zero, suc, ◌+◌, ◌≡◌, refl, ◌∙◌, sym, ap, true, false, List, [], ◌∷◌, ◌++◌, arith, ◌==◌, elem,
  elem-append, if◌then◌else◌, ◌&&◌, ◌||◌, Bool-cases, ==_refl, inl, inr, append-nil, append_assoc,
  pred,
}
use v10_engine.Prelude.Int.{pos, down, is_zero}
use v10_engine.Prelude.Dict.{get_or, put, get_or-put}
use v10_engine.Prelude.Distinct.{
  Distinct, IsSubset, count, count_of_elem, elem_of_count, Distinct-append,
}
use v10_engine.Advancer.{NodeSnapshot}
use v10_engine.Advancer.Topo.{Degrees, relax}
use v10_engine.Advancer.Topo.Count.{needs, remaining, ids, remaining-place, elem_of_needs}
use v10_engine.Advancer.Topo.Graph.{Holds}

-- The nodes whose in-degree falls to zero while the successors are counted down to m.
pub fresh : (ℕ → ℕ) → List ℕ → List ℕ
fresh m [] = []
fresh m (s ∷ ss) = if m s + count s ss == 0 then s ∷ fresh m ss else fresh m ss

down-head :
    (m : ℕ → ℕ) (s : ℕ) (ss : List ℕ) (deg : Degrees)
    → Holds deg (λ t. m t + count t (s ∷ ss))
    → down (get_or s (pos 0) deg) ≡ pos (m s + count s ss)
unfolding down count
down-head m s ss deg h =
    let e : get_or s (pos 0) deg ≡ pos (suc (m s + count s ss)) =
      h s ∙ ap pos (ground (arith, ==_refl s)) in
    rw e refl

is_zero-pos : (n : ℕ) → is_zero (pos n) ≡ (n == 0)
unfolding is_zero
is_zero-pos zero = refl
is_zero-pos (suc n) = ground arith

relax_lem :
    (m : ℕ → ℕ) (ss : List ℕ) (deg : Degrees) (queue : List ℕ)
    → Holds deg (λ s. m s + count s ss)
    → Holds (relax ss deg queue).0 m × ((relax ss deg queue).1 ≡ queue ++ fresh m ss)
unfolding relax fresh count
relax_lem m [] deg queue h = (λ s. h s ∙ ap pos (omega arith), sym (append-nil queue))
relax_lem m (s ∷ ss) deg queue h =
    let d = down (get_or s (pos 0) deg) in
    let (held, grown) =
      relax_lem m ss (put s d deg) (if is_zero d then queue ++ s ∷ [] else queue)
        (λ t. get_or-put s t d (pos 0) deg ∙ ground (arith, down-head m s ss deg h, h t)) in
    (held, grown ∙ joined)
  where
    joined :
        (if is_zero (down (get_or s (pos 0) deg)) then queue ++ s ∷ [] else queue) ++ fresh m ss
        ≡ queue ++ (if m s + count s ss == 0 then s ∷ fresh m ss else fresh m ss)
    joined =
        rw (down-head m s ss deg h, is_zero-pos)
          (elim (Bool-cases (m s + count s ss == 0)) [
            | inl last ↦ rw last (append_assoc queue (s ∷ []) (fresh m ss))
            | inr more ↦ rw more refl
          ])

elem-fresh : (m : ℕ → ℕ) (ss : List ℕ) (a : ℕ) → elem a (fresh m ss) ≡ (elem a ss && (m a == 0))
unfolding fresh
elem-fresh m [] a = refl
elem-fresh m (s ∷ ss) a = ground (arith, elem-fresh m ss a, elem_of_count a ss, count_of_elem a ss)

fresh-Distinct : (m : ℕ → ℕ) (ss : List ℕ) → Distinct (fresh m ss)
unfolding fresh
fresh-Distinct m [] = tt
fresh-Distinct m (s ∷ ss) = elim (Bool-cases (m s + count s ss == 0)) [
  | inl last ↦ rw last (elem-fresh m ss s ∙ ground (arith, elem_of_count s ss), fresh-Distinct m ss)
  | inr more ↦ rw more (fresh-Distinct m ss)
]

-- What holds between two rounds: the nodes placed so far, then those that wait in the queue.
pub record Inv (nodes : List NodeSnapshot) (deg : Degrees) (queue order : List ℕ) : Type 0 where
  pub degrees : Holds deg (λ s. remaining s order nodes)
  pub once : Distinct (order ++ queue)
  pub known : IsSubset (order ++ queue) (ids nodes)
  pub free : (s : ℕ) → elem s (order ++ queue) ≡ true → remaining s order nodes ≡ 0
  pub all_free :
      (s : ℕ)
      → elem s (ids nodes) ≡ true
      → remaining s order nodes ≡ 0
      → elem s (order ++ queue) ≡ true

Distinct-fresh_head :
    (xs : List ℕ) (x : ℕ) (ys : List ℕ) → Distinct (xs ++ x ∷ ys) → elem x xs ≡ false
Distinct-fresh_head [] x ys h = refl
Distinct-fresh_head (y ∷ xs) x ys h =
    ground (arith, Distinct-fresh_head xs x ys h.1, h.0, elem-append y xs (x ∷ ys))

regroup :
    (order : List ℕ) (x : ℕ) (queue added : List ℕ)
    → (order ++ x ∷ []) ++ (queue ++ added) ≡ (order ++ x ∷ queue) ++ added
regroup order x queue added = simp append_assoc

-- One round: x is taken from the queue, and its successors are counted down.
module _ (nodes : List NodeSnapshot) (deg : Degrees) (x : ℕ) (queue order ss : List ℕ)
    (counted : (s : ℕ) → count s ss ≡ needs s x nodes) (inv : Inv nodes deg (x ∷ queue) order) where
  abbrev later : ℕ → ℕ
  later s = remaining s (order ++ x ∷ []) nodes

  split : (s : ℕ) → remaining s order nodes ≡ later s + count s ss
  split s =
      remaining-place s order x nodes (Distinct-fresh_head order x queue inv.once)
      ∙ omega (arith, counted s)

  abbrev grown : List ℕ
  grown = (order ++ x ∷ []) ++ (queue ++ fresh later ss)

  elem-grown :
      (a : ℕ) → elem a grown ≡ (elem a (order ++ x ∷ queue) || (elem a ss && (later a == 0)))
  elem-grown a =
      ap (elem a) (regroup order x queue (fresh later ss))
      ∙ elem-append a (order ++ x ∷ queue) (fresh later ss)
      ∙ ap (λ b. elem a (order ++ x ∷ queue) || b) (elem-fresh later ss a)

  round-once : Distinct grown
  round-once = rw (regroup order x queue (fresh later ss)) (
      Distinct-append (order ++ x ∷ queue) (fresh later ss) inv.once (fresh-Distinct later ss)
        (λ a m. elem-fresh later ss a ∙ ground (arith, inv.free a m, split a, elem_of_count a ss)))

  round-known : IsSubset grown (ids nodes)
  round-known a m = ground (
    arith,
    elem-grown a,
    inv.known a,
    counted a,
    elem_of_count a ss,
    elem_of_needs a x nodes {k = pred (needs a x nodes)},
  )

  round-free : (s : ℕ) → elem s grown ≡ true → later s ≡ 0
  round-free s m = ground (arith, elem-grown s, inv.free s, split s)

  round-all_free : (s : ℕ) → elem s (ids nodes) ≡ true → later s ≡ 0 → elem s grown ≡ true
  round-all_free s m z =
      elem-grown s ∙ ground (arith, inv.all_free s m, split s, count_of_elem s ss)

  pub round-Inv : Inv nodes (relax ss deg queue).0 (relax ss deg queue).1 (order ++ x ∷ [])
  round-Inv =
      let (held, e) = relax_lem later ss deg queue (λ s. inv.degrees s ∙ ap pos (split s)) in
      record {
        degrees = held;
        once = rw e round-once;
        known = rw e round-known;
        free = rw e round-free;
        all_free = rw e round-all_free;
      }
