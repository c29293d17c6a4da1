-- ===== src/Advancer/Advance/Loaded.antt =====
-- The snapshots that `_load_nodes` of engine/core/dag_advancer.py takes, and the pass that starts
-- with them.
use v10_engine.Prelude.{
  ℕ, ◌≡◌, refl, inl, inr, Bool, false, some, List, [], ◌∷◌, map, keep, arith, All, ◌==◌, ==_refl,
  elem, ltb, Bool-cases,
}
use v10_engine.Prelude.Distinct.{Distinct}
use v10_engine.Prelude.Sort.{insert_by, sorted}
use v10_engine.Store.{NodeRow, Edge, select, select_dag, write_row}
use v10_engine.Store.World.{Db, World, Env, Respects, yield_to}
use v10_engine.Advancer.{NodeSnapshot}
use v10_engine.Advancer.Transition.Safety.{stop, turn}
use v10_engine.Advancer.Visit.{find_node}
use v10_engine.Advancer.Advance.{
  Pass, snapshot, load_nodes, is_paused, begin_pass, advance_loaded, advance_dag,
}
use v10_engine.Advancer.Advance.Allowed.{
  AllCoherent, Reaches, Run-AllCoherent, advance_loaded-Reaches,
}

-- `id` is the primary key of `nodes`.
abbrev pub HasKey : List NodeRow → Type 0
HasKey rows = Distinct (map (λ r. r.id) rows)

-- The other tasks keep the key, as the database makes them do.
pub record KeepsHasKey (env : Env) : Type 0 where
  pub each : (n : ℕ) (db : Db) → HasKey db.nodes → HasKey (env.others n db).nodes

module _ (i : ℕ) (q : NodeRow → Bool) (f : NodeRow → NodeRow)
    (keeps : (r : NodeRow) → (f r).id ≡ r.id) where
  ids-write_row :
      (rows : List NodeRow) → map (λ r. r.id) (write_row i q f rows) ≡ map (λ r. r.id) rows
  unfolding write_row
  ids-write_row [] = refl
  ids-write_row (r ∷ rows) = ground (arith, keeps r, ids-write_row rows)

  pub write_row-HasKey : (rows : List NodeRow) → HasKey rows → HasKey (write_row i q f rows)
  write_row-HasKey rows key = rw (ids-write_row rows) key

abbrev Stands : List NodeRow → NodeRow → Type 0
Stands rows r = select r.id rows ≡ some r

Stands-below :
    (r : NodeRow) (rows xs : List NodeRow)
    → elem r.id (map (λ r. r.id) xs) ≡ false
    → All (Stands rows) xs
    → All (Stands (r ∷ rows)) xs
unfolding select
Stands-below r rows [] h a = tt
Stands-below r rows (x ∷ xs) h a =
    (ground (arith, h, a.0), Stands-below r rows xs (ground (arith, h)) a.1)

All-Stands : (rows : List NodeRow) → HasKey rows → All (Stands rows) rows
unfolding select
All-Stands [] k = tt
All-Stands (r ∷ rows) k =
    (rw (==_refl r.id) refl, Stands-below r rows rows k.0 (All-Stands rows k.1))

module _ {A : Type 0} (P : A → Type 0) where
  All-keep : (q : A → Bool) (xs : List A) → All P xs → All P (keep q xs)
  All-keep q [] a = tt
  All-keep q (x ∷ xs) a = elim (Bool-cases (q x)) [
    | inl e ↦ rw e (a.0, All-keep q xs a.1)
    | inr e ↦ rw e (All-keep q xs a.1)
  ]

  All-insert_by : (key : A → ℕ) (x : A) (xs : List A) → P x → All P xs → All P (insert_by key x xs)
  unfolding insert_by
  All-insert_by key x [] p a = (p, tt)
  All-insert_by key x (y ∷ ys) p a = elim (Bool-cases (ltb (key y) (key x))) [
    | inl e ↦ rw e (a.0, All-insert_by key x ys p a.1)
    | inr e ↦ rw e (p, a)
  ]

  All-sorted : (key : A → ℕ) (xs : List A) → All P xs → All P (sorted key xs)
  unfolding sorted
  All-sorted key [] a = tt
  All-sorted key (x ∷ xs) a = All-insert_by key x (sorted key xs) a.0 (All-sorted key xs a.1)

snapshots-AllCoherent :
    (dag : ℕ) (edges : List Edge) (w : World) (rows : List NodeRow)
    → All (Stands w.nodes) rows
    → AllCoherent (map (snapshot dag edges) rows) w
unfolding find_node
snapshots-AllCoherent dag edges w [] a i n e = absurd (ground (arith, e))
snapshots-AllCoherent dag edges w (r ∷ rows) a i n e = elim (Bool-cases (r.id == i)) [
  | inl same ↦
      let e' = rw same at e in
      let q : snapshot dag edges r ≡ n = ground arith in rw (← q) (rw a.0 (omega arith, λ v. refl))
  | inr other ↦ snapshots-AllCoherent dag edges w rows a.1 i n (rw other at e)
]

-- A snapshot that is loaded is not ahead of its row.
pub load_nodes-AllCoherent :
    (dag : ℕ) (w w' : World) → HasKey w.nodes → AllCoherent (load_nodes dag w w') w
unfolding load_nodes
load_nodes-AllCoherent dag w w' key = snapshots-AllCoherent dag w'.edges w _ (
    All-sorted (Stands w.nodes) (λ r. r.priority) _
      (All-keep (Stands w.nodes) (λ r. r.dag_id == dag) w.nodes (All-Stands w.nodes key)))

yield_to-HasKey :
    (env : Env) (w : World) → KeepsHasKey env → HasKey w.nodes → HasKey (yield_to env w).nodes
unfolding yield_to
yield_to-HasKey env w keeps key = keeps.each w.awaits w.db key

nothing-AllCoherent : (w : World) → AllCoherent [] w
unfolding find_node
nothing-AllCoherent w i n e = absurd (ground (arith, e))

-- Whatever the other tasks do by the protocol of the lock and within the primary key, `_advance_dag`
-- makes only allowed transitions of the rows as they are when it writes, and none of the snapshots it
-- ends with is ahead of its row.
pub advance_dag-Reaches :
    (env : Env) (dag : ℕ) (w : World)
    → Respects env
    → KeepsHasKey env
    → HasKey w.nodes
    → Reaches env w (advance_dag env dag w)
unfolding advance_dag
advance_dag-Reaches env dag w respects keeps key =
    let w1 = yield_to env w in
    let w2 = yield_to env w1 in
    let w3 = yield_to env w2 in
    let w4 = yield_to env w3 in
    elim (Bool-cases (is_paused (select_dag dag w1.dags))) [
      | inl idle ↦ rw idle (turn stop, nothing-AllCoherent w1)
      | inr open_dag ↦
          let key2 = yield_to-HasKey env w1 keeps (yield_to-HasKey env w keeps key) in
          let c =
            Run-AllCoherent env respects {w = w2} (load_nodes dag w2 w3) (turn (turn stop))
              (load_nodes-AllCoherent dag w2 w3 key2) in
          let (r, d) = loaded (load_nodes dag w2 w3) w4 c in
          rw open_dag (turn (turn (turn (turn r))), d)
    ]
  where
    loaded :
        (nodes : List NodeSnapshot) (v : World)
        → AllCoherent nodes v
        → let p : Pass = elim nodes [
          | [] ↦ begin_pass dag [] v
          | n ∷ ns ↦ advance_loaded env dag (n ∷ ns) v
        ] in
          Reaches env v p
    loaded [] v c = (stop, c)
    loaded (n ∷ ns) v c = advance_loaded-Reaches env dag (n ∷ ns) v respects c
