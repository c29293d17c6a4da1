-- ===== src/Impact/Shortest.antt =====
-- `_bfs_distances` of engine/core/impact_analyzer.py returns the shortest distances up to its depth.
use v10_engine.Prelude.{
  ◌↔◌, leb, ℕ, suc, ◌+◌, ◌≤◌, ◌≡◌, refl, sym, ◌∙◌, ap, inl, inr, true, ◌&&◌, some, List, [], ◌∷◌,
  map, arith, elem, length, ◌==◌, if◌then◌else◌, Bool-cases,
}
use v10_engine.Prelude.Dict.{Dict, get, put, keys, get-put}
use v10_engine.Prelude.Distinct.{missing}
use v10_engine.Store.{Edge}
use v10_engine.Impact.Search.{Queue, max_bfs_depth, put_roots, bfs_distances}
use v10_engine.Impact.Rounds.{queued, Sorted, Under, targets}
use v10_engine.Impact.Distances.{Walk, root, along, Closed, Inv, Found, search-Found}

get-put_roots :
    (a : ℕ) (is : List ℕ) (d : Dict ℕ)
    → get a (put_roots is d) ≡ (if elem a is then some 0 else get a d)
unfolding put_roots
get-put_roots a [] d = refl
get-put_roots a (i ∷ is) d = get-put_roots a is (put i 0 d) ∙ ground (arith, get-put i a 0 d)

abbrev start : List ℕ → Queue
start is = map (λ i. (i, 0)) is

queued-start : (a n : ℕ) (is : List ℕ) → queued a n (start is) ≡ (elem a is && 0 == n)
queued-start a n [] = refl
queued-start a n (i ∷ is) = ground (arith, queued-start a n is)

start-Sorted : (is : List ℕ) → Sorted 0 (start is)
start-Sorted [] = tt
start-Sorted (i ∷ is) = (omega arith, start-Sorted is)

start-Under : (is : List ℕ) → Under 1 (start is)
start-Under [] = tt
start-Under (i ∷ is) = (omega arith, start-Under is)

length-start : (is : List ℕ) → length (start is) ≡ length is
length-start [] = refl
length-start (i ∷ is) = ap suc (length-start is)

missing_le : (placed : List ℕ) (edges : List Edge) → missing placed (targets edges) ≤ length edges
unfolding missing targets
missing_le placed [] = omega arith
missing_le placed (e ∷ edges) = ground (arith, missing_le placed edges)

module _ (roots : List ℕ) (edges : List Edge) where
  root_of_start : (a n : ℕ) → get a (put_roots roots []) ≡ some n → (elem a roots ≡ true) × (n ≡ 0)
  unfolding get
  root_of_start a n h =
      let z = sym (get-put_roots a roots []) ∙ h in
      elim (Bool-cases (elem a roots)) [ inl m ↦ (m, ground arith) | inr m ↦ absurd (ground arith) ]

  start-Inv : Inv roots edges 0 (put_roots roots []) (start roots)
  start-Inv = record {
    sound = λ a n h. let (m, z) = root_of_start a n h in rw z (root a m);
    shallow = λ a n h. omega (arith, (root_of_start a n h).1);
    roots_near = λ a m. get-put_roots a roots [] ∙ ground arith;
    in_queue = λ a n h.
        let z = sym (queued-start a n roots) ∙ h in get-put_roots a roots [] ∙ ground arith;
    all_under = λ a n h. omega (arith, (root_of_start a n h).1);
    sorted = start-Sorted roots;
    under = start-Under roots;
    settled =
        λ a n h. let (m, z) = root_of_start a n h in inl (queued-start a n roots ∙ ground arith);
  }

  bfs-Found : Found roots edges (bfs_distances roots edges)
  unfolding bfs_distances
  bfs-Found =
      search-Found roots edges (length roots + length edges) 0 (put_roots roots []) (start roots)
        (omega (arith, length-start roots, missing_le (keys (put_roots roots [])) edges)) start-Inv

  -- A node that a walk of at most ten edges leads to has a distance, the walk's at most.
  Found-near :
      (d : Dict ℕ)
      → Found roots edges d
      → {k a : ℕ} → Walk roots edges k a
      → k ≤ max_bfs_depth
      → (n : ℕ) × (get a d ≡ some n) × (n ≤ k)
  unfolding Closed
  Found-near d found (root a m) le = (0, found.inv.roots_near a m, omega arith)
  Found-near d found (along {a = a} b walk m) le =
      let (n, e, low) = Found-near d found walk (omega arith) in
      elim (found.inv.settled a n e) [
        | inl place ↦ absurd (ground arith)
        | inr (inl deep) ↦ absurd (omega arith)
        | inr (inr closed) ↦ let (k, h, near) = closed b m in (k, h, omega arith)
      ]

-- The distance of a node: a walk of that length leads to it, and no shorter one does.
pub record IsDistance (roots : List ℕ) (edges : List Edge) (a n : ℕ) : Type 0 where
  pub walk : Walk roots edges n a
  pub shortest : (m : ℕ) → Walk roots edges m a → n ≤ m

-- The search gives a node its distance from the roots where that is ten at most, and no other number
-- and no other node.
pub bfs_distances_exact :
    (roots : List ℕ) (edges : List Edge) (a n : ℕ)
    → (get a (bfs_distances roots edges) ≡ some n)
      ↔ (IsDistance roots edges a n × (n ≤ max_bfs_depth))
bfs_distances_exact roots edges a n =
    let d = bfs_distances roots edges in
    let found = bfs-Found roots edges in
    let low = λ (n : ℕ) (h : get a d ≡ some n). found.inv.shallow a n h in
    let sound = λ (n : ℕ) (h : get a d ≡ some n). found.inv.sound a n h in
    (
      λ h. (
        record {
          walk = sound n h;
          shortest = λ m w. elim (Bool-cases (leb m max_bfs_depth)) [
            | inr long ↦ ground (arith, low n h)
            | inl short ↦
                let (k, e, near) = Found-near roots edges d found w (ground arith) in
                let same : n ≡ k = ground arith in omega arith
          ];
        },
        low n h,
      ),
      λ (distance, near).
          let (k, e, le) = Found-near roots edges d found distance.walk near in
          let same : k ≡ n = omega (arith, distance.shortest k (sound k e)) in rw (← same) e,
    )
