-- ===== src/Impact/Rounds.antt =====
-- What one round of the search of engine/core/impact_analyzer.py does to the distances and the queue.
use v10_engine.Prelude.{
  ℕ, suc, ◌+◌, ◌≤◌, ◌≡◌, refl, sym, ◌∙◌, ap, ◌⊎◌, inl, inr, Bool, true, false, ◌&&◌, ◌||◌, Option,
  none, some, List, [], ◌∷◌, ◌++◌, map, arith, elem, length, length-append, ◌==◌, ==_refl,
  Bool-cases,
}
use v10_engine.Prelude.Dict.{Dict, get, put, keys, get-put}
use v10_engine.Prelude.Distinct.{count, elem_of_count, missing, missing-place}
use v10_engine.Store.{Edge}
use v10_engine.Impact.Search.{Queue, successors, reach_one, reach_all}

-- The queue holds the place (a, n).
abbrev pub queued : ℕ → ℕ → Queue → Bool
queued a n [] = false
queued a n ((i, d) ∷ q) = (i == a && d == n) || queued a n q

pub queued-append : (a n : ℕ) (p q : Queue) → queued a n (p ++ q) ≡ (queued a n p || queued a n q)
queued-append a n [] q = refl
queued-append a n ((i, d) ∷ p) q = ground (arith, queued-append a n p q)

-- Nothing in the queue is nearer than `near` or farther than one edge more, and it is in order.
abbrev pub Sorted : ℕ → Queue → Type 0
Sorted near [] = Unit
Sorted near ((i, d) ∷ q) = (near ≤ d) × Sorted d q

pub Sorted-down : (near d : ℕ) (q : Queue) → near ≤ d → Sorted d q → Sorted near q
Sorted-down near d [] le s = tt
Sorted-down near d ((i, e) ∷ q) le s = (omega (arith, s.0), s.1)

abbrev pub Under : ℕ → Queue → Type 0
Under far [] = Unit
Under far ((i, d) ∷ q) = (d ≤ far) × Under far q

pub Sorted-append :
    (near far i : ℕ) (q : Queue)
    → Sorted near q
    → Under far q
    → near ≤ far
    → Sorted near (q ++ (i, far) ∷ [])
Sorted-append near far i [] s u le = (le, tt)
Sorted-append near far i ((j, d) ∷ q) s u le = (s.0, Sorted-append d far i q s.1 u.1 u.0)

pub Under-append : (far i : ℕ) (q : Queue) → Under far q → Under far (q ++ (i, far) ∷ [])
Under-append far i [] u = (omega arith, tt)
Under-append far i ((j, d) ∷ q) u = (u.0, Under-append far i q u.1)

keys_absent : (k v : ℕ) (d : Dict ℕ) → get k d ≡ none → keys (put k v d) ≡ keys d ++ k ∷ []
unfolding get put keys
keys_absent k v [] h = refl
keys_absent k v ((j, w) ∷ d) h = elim (Bool-cases (j == k)) [
  | inl same ↦ absurd (ground arith)
  | inr other ↦ rw other (ap (λ l. j ∷ l) (keys_absent k v d (ground arith)))
]

elem-keys : (k : ℕ) (d : Dict ℕ) → get k d ≡ none → elem k (keys d) ≡ false
unfolding get keys
elem-keys k [] h = refl
elem-keys k ((j, w) ∷ d) h = ground (arith, elem-keys k d)

unfoldable pub targets : List Edge → List ℕ
targets edges = map (λ e. e.to_node_id) edges

pub elem-targets :
    (edges : List Edge) (i a : ℕ)
    → elem a (successors edges i) ≡ true
    → elem a (targets edges) ≡ true
unfolding successors targets
elem-targets [] i a m = m
elem-targets (e ∷ edges) i a m = ground (arith, elem-targets edges i a)

pub missing-put :
    (edges : List Edge) (k v : ℕ) (d : Dict ℕ)
    → get k d ≡ none
    → elem k (targets edges) ≡ true
    → suc (missing (keys (put k v d)) (targets edges)) ≤ missing (keys d) (targets edges)
missing-put edges k v d absent m = rw (keys_absent k v d absent) (
    let place = missing-place (keys d) k (targets edges) (elem-keys k d absent) in
    elim (Bool-cases (count k (targets edges) == 0)) [
      | inl z ↦ absurd (let e = elem_of_count k (targets edges) (ground arith) in ground arith)
      | inr nz ↦ ground (arith, place)
    ])

-- What a round has done to the distances and the queue, with the children of one node at `far`.
pub record Effect (edges : List Edge) (far : ℕ) (cs : List ℕ) (d : Dict ℕ) (q : Queue) (d' : Dict ℕ)
    (q' : Queue) : Type 0 where
  pub kept : (b m : ℕ) → get b d ≡ some m → get b d' ≡ some m
  pub reached : (b : ℕ) → elem b cs ≡ true → (m : ℕ) × (get b d' ≡ some m)
  pub origin :
      (b m : ℕ)
      → get b d' ≡ some m
      → (get b d ≡ some m) ⊎ ((m ≡ far) × (elem b cs ≡ true) × (queued b far q' ≡ true))
  pub kept_queue : (b m : ℕ) → queued b m q ≡ true → queued b m q' ≡ true
  pub origin_queue : (b m : ℕ) → queued b m q' ≡ true → (queued b m q ≡ true) ⊎ (get b d' ≡ some m)
  pub measure :
      length q' + missing (keys d') (targets edges) ≤ length q + missing (keys d) (targets edges)
  pub sorted : (near : ℕ) → near ≤ far → Sorted near q → Under far q → Sorted near q'
  pub under : Under far q → Under far q'

reach_one-Effect :
    (edges : List Edge) (far i : ℕ) (d : Dict ℕ) (q : Queue) (o : Option ℕ)
    → get i d ≡ o
    → elem i (targets edges) ≡ true
    → Effect edges far (i ∷ []) d q (reach_one far i o d q).0 (reach_one far i o d q).1
reach_one-Effect edges far i d q (some n) e t = record {
  kept = λ b m h. h;
  reached = λ b h. (n, let same : i ≡ b = ground arith in rw (← same) e);
  origin = λ b m h. inl h;
  kept_queue = λ b m h. h;
  origin_queue = λ b m h. inl h;
  measure = omega arith;
  sorted = λ near le s u. s;
  under = λ u. u;
}
reach_one-Effect edges far i d q none e t = record {
  kept = λ b m h. get-put i b far d ∙ elim (Bool-cases (i == b)) [
    | inl same ↦ absurd (let k : i ≡ b = ground arith in let z = rw (← k) at h in ground arith)
    | inr other ↦ ground arith
  ];
  reached = λ b h. (far, get-put i b far d ∙ ground arith);
  origin = λ b m h. elim (Bool-cases (i == b)) [
    | inl same ↦
        let k : i ≡ b = ground arith in
        inr (
          let z = sym (get-put i b far d) ∙ h in ground arith,
          ground arith,
          queued-append b far q ((i, far) ∷ []) ∙ ground (arith, ==_refl far),
        )
    | inr other ↦ inl (let z = sym (get-put i b far d) ∙ h in ground arith)
  ];
  kept_queue = λ b m h. queued-append b m q ((i, far) ∷ []) ∙ ground arith;
  origin_queue = λ b m h. elim (Bool-cases (queued b m q)) [
    | inl old ↦ inl old
    | inr new ↦
        let z = sym (queued-append b m q ((i, far) ∷ [])) ∙ h in
        inr (get-put i b far d ∙ ground arith)
  ];
  measure = omega (arith, length-append q ((i, far) ∷ []), missing-put edges i far d e t);
  sorted = λ near le s u. Sorted-append near far i q s u le;
  under = λ u. Under-append far i q u;
}

Effect-cons :
    (edges : List Edge) (far i : ℕ) (is : List ℕ) {d d1 d2 : Dict ℕ} {q q1 q2 : Queue}
    → Effect edges far (i ∷ []) d q d1 q1
    → Effect edges far is d1 q1 d2 q2
    → Effect edges far (i ∷ is) d q d2 q2
Effect-cons edges far i is {d = d} {d1 = d1} {d2 = d2} {q = q} {q1 = q1} {q2 = q2} one rest =
    record {
      kept = λ b m h. rest.kept b m (one.kept b m h);
      reached = λ b h. elim (Bool-cases (i == b)) [
        | inl same ↦ let (m, e) = one.reached b (ground arith) in (m, rest.kept b m e)
        | inr other ↦ rest.reached b (ground arith)
      ];
      origin = λ b m h. elim (rest.origin b m h) [
        | inl before ↦ elim (one.origin b m before) [
          | inl old ↦ inl old
          | inr (far_away, member, place) ↦
              inr (far_away, ground arith, rest.kept_queue b far place)
        ]
        | inr (far_away, member, place) ↦ inr (far_away, ground arith, place)
      ];
      kept_queue = λ b m h. rest.kept_queue b m (one.kept_queue b m h);
      origin_queue = λ b m h. elim (rest.origin_queue b m h) [
        | inl before ↦ elim (one.origin_queue b m before) [
          | inl old ↦ inl old
          | inr e ↦ inr (rest.kept b m e)
        ]
        | inr e ↦ inr e
      ];
      measure = omega (arith, one.measure, rest.measure);
      sorted = λ near le s u. rest.sorted near le (one.sorted near le s u) (one.under u);
      under = λ u. rest.under (one.under u);
    }

pub reach_all-Effect :
    (edges : List Edge) (far : ℕ) (cs : List ℕ) (d : Dict ℕ) (q : Queue)
    → ((b : ℕ) → elem b cs ≡ true → elem b (targets edges) ≡ true)
    → Effect edges far cs d q (reach_all far cs d q).0 (reach_all far cs d q).1
unfolding reach_all
reach_all-Effect edges far [] d q t = record {
  kept = λ b m h. h;
  reached = λ b h. absurd (ground arith);
  origin = λ b m h. inl h;
  kept_queue = λ b m h. h;
  origin_queue = λ b m h. inl h;
  measure = omega arith;
  sorted = λ near le s u. s;
  under = λ u. u;
}
reach_all-Effect edges far (i ∷ is) d q t =
    let one = reach_one-Effect edges far i d q (get i d) refl (t i (ground (arith, ==_refl i))) in
    Effect-cons edges far i is one (
      reach_all-Effect edges far is (reach_one far i (get i d) d q).0
        (reach_one far i (get i d) d q).1 (λ b m. t b (ground arith)))
