-- ===== src/Impact/Distances.antt =====
-- What the search of engine/core/impact_analyzer.py finds: the shortest distances up to its depth.
use v10_engine.Prelude.{
  ℕ, zero, suc, ◌+◌, ◌≤◌, ◌<◌, ◌≡◌, ◌⊎◌, inl, inr, true, some, List, [], ◌∷◌, arith, leb, elem,
  length, ==_refl, Bool-cases,
}
use v10_engine.Prelude.Dict.{Dict, get, keys}
use v10_engine.Prelude.Distinct.{missing}
use v10_engine.Store.{Edge}
use v10_engine.Impact.Search.{Queue, max_bfs_depth, successors, search}
use v10_engine.Impact.Rounds.{
  queued, Sorted, Under, targets, elem-targets, Effect, reach_all-Effect,
}

-- A walk of n edges from a root.
pub data Walk (roots : List ℕ) (edges : List Edge) : ℕ → ℕ → Type 0 where
  root : (a : ℕ) → elem a roots ≡ true → Walk roots edges 0 a
  along :
      {n a : ℕ} (b : ℕ)
      → Walk roots edges n a
      → elem b (successors edges a) ≡ true
      → Walk roots edges (suc n) b

module _ (roots : List ℕ) (edges : List Edge) where
  -- All successors of a have a distance, one more than n at most.
  unfoldable pub Closed : Dict ℕ → ℕ → ℕ → Type 0
  Closed d a n =
      (b : ℕ) → elem b (successors edges a) ≡ true → (m : ℕ) × (get b d ≡ some m) × (m ≤ suc n)

  pub record Inv (near : ℕ) (d : Dict ℕ) (q : Queue) : Type 0 where
    pub sound : (a n : ℕ) → get a d ≡ some n → Walk roots edges n a
    pub shallow : (a n : ℕ) → get a d ≡ some n → n ≤ max_bfs_depth
    pub roots_near : (a : ℕ) → elem a roots ≡ true → get a d ≡ some 0
    pub in_queue : (a n : ℕ) → queued a n q ≡ true → get a d ≡ some n
    pub all_under : (a n : ℕ) → get a d ≡ some n → n ≤ suc near
    pub sorted : Sorted near q
    pub under : Under (suc near) q
    pub settled :
        (a n : ℕ) → get a d ≡ some n → (queued a n q ≡ true) ⊎ (max_bfs_depth ≤ n) ⊎ Closed d a n

  Under-up : (far more : ℕ) (q : Queue) → far ≤ more → Under far q → Under more q
  Under-up far more [] le u = tt
  Under-up far more ((i, d) ∷ q) le u = (omega (arith, u.0), Under-up far more q le u.1)

  Closed-kept :
      (d d' : Dict ℕ) (a n : ℕ)
      → ((b m : ℕ) → get b d ≡ some m → get b d' ≡ some m)
      → Closed d a n
      → Closed d' a n
  unfolding Closed
  Closed-kept d d' a n kept c b m = let (k, e, le) = c b m in (k, kept b k e, le)

  -- The front of the queue is taken.
  module _ (near i e : ℕ) (d : Dict ℕ) (q : Queue) (inv : Inv near d ((i, e) ∷ q)) where
    front : get i d ≡ some e
    front = inv.in_queue i e (ground (arith, ==_refl i, ==_refl e))

    drop-Inv : max_bfs_depth ≤ e → Inv e d q
    drop-Inv deep = record {
      sound = inv.sound;
      shallow = inv.shallow;
      roots_near = inv.roots_near;
      in_queue = λ a n h. inv.in_queue a n (ground arith);
      all_under = λ a n h. omega (arith, inv.all_under a n h, inv.sorted.0);
      sorted = inv.sorted.1;
      under = Under-up (suc near) (suc e) q (omega (arith, inv.sorted.0)) inv.under.1;
      settled = λ a n h. elim (inv.settled a n h) [
        | inl place ↦ elim (Bool-cases (queued a n q)) [
          | inl still ↦ inl still
          | inr gone ↦ let same : e ≡ n = ground arith in inr (inl (rw (← same) deep))
        ]
        | inr other ↦ inr other
      ];
    }

    module _ (d' : Dict ℕ) (q' : Queue) (shallow : e < max_bfs_depth)
        (effect : Effect edges (suc e) (successors edges i) d q d' q') where
      below : (a n : ℕ) → get a d' ≡ some n → n ≤ suc e
      below a n h = elim (effect.origin a n h) [
        | inl old ↦ omega (arith, inv.all_under a n old, inv.sorted.0)
        | inr (same, member, place) ↦ omega arith
      ]

      front-Closed : Closed d' i e
      unfolding Closed
      front-Closed b m = let (k, h) = effect.reached b m in (k, h, below b k h)

      taken :
          (a n : ℕ)
          → get a d ≡ some n
          → queued a n ((i, e) ∷ q) ≡ true
          → (queued a n q' ≡ true) ⊎ (max_bfs_depth ≤ n) ⊎ Closed d' a n
      taken a n h place = elim (Bool-cases (queued a n q)) [
        | inl still ↦ inl (effect.kept_queue a n still)
        | inr gone ↦
            let here : i ≡ a = ground arith in
            let far : e ≡ n = ground arith in inr (inr (rw (← here, ← far) front-Closed))
      ]

      old_settled :
          (a n : ℕ)
          → get a d ≡ some n
          → (queued a n q' ≡ true) ⊎ (max_bfs_depth ≤ n) ⊎ Closed d' a n
      old_settled a n h = elim (inv.settled a n h) [
        | inl place ↦ taken a n h place
        | inr (inl deep) ↦ inr (inl deep)
        | inr (inr c) ↦ inr (inr (Closed-kept d d' a n effect.kept c))
      ]

      round-Inv : Inv e d' q'
      round-Inv = record {
        sound = λ a n h. elim (effect.origin a n h) [
          | inl old ↦ inv.sound a n old
          | inr (same, member, place) ↦ rw same (along a (inv.sound i e front) member)
        ];
        shallow = λ a n h. elim (effect.origin a n h) [
          | inl old ↦ inv.shallow a n old
          | inr (same, member, place) ↦ omega arith
        ];
        roots_near = λ a m. effect.kept a 0 (inv.roots_near a m);
        in_queue = λ a n h. elim (effect.origin_queue a n h) [
          | inl old ↦ effect.kept a n (inv.in_queue a n (ground arith))
          | inr new ↦ new
        ];
        all_under = below;
        sorted =
            effect.sorted e (omega arith) inv.sorted.1
              (Under-up (suc near) (suc e) q (omega (arith, inv.sorted.0)) inv.under.1);
        under =
            effect.under (Under-up (suc near) (suc e) q (omega (arith, inv.sorted.0)) inv.under.1);
        settled = λ a n h. elim (effect.origin a n h) [
          | inl old ↦ old_settled a n old
          | inr (same, member, place) ↦ inl (rw same place)
        ];
      }

  -- The search ends with an empty queue.
  pub record Found (d : Dict ℕ) : Type 0 where
    pub near : ℕ
    pub inv : Inv near d []

  pub search-Found :
      (fuel near : ℕ) (d : Dict ℕ) (q : Queue)
      → length q + missing (keys d) (targets edges) ≤ fuel
      → Inv near d q
      → Found (search fuel edges d q)
  unfolding search
  search-Found zero near d [] m inv = record { near = near; inv = inv }
  search-Found zero near d ((i, e) ∷ q) m inv = absurd (omega arith)
  search-Found (suc fuel) near d [] m inv = record { near = near; inv = inv }
  search-Found (suc fuel) near d ((i, e) ∷ q) m inv =
      let effect = reach_all-Effect edges (suc e) (successors edges i) d q (elem-targets edges i) in
      elim (Bool-cases (leb max_bfs_depth e)) [
        | inl deep ↦
            rw deep
              (search-Found fuel e d q (omega arith) (drop-Inv near i e d q inv (ground arith)))
        | inr shallow ↦ rw shallow (
            search-Found fuel e _ _ (omega (arith, effect.measure))
              (round-Inv near i e d q inv _ _ (ground arith) effect))
      ]
