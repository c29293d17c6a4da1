-- ===== src/Advancer/Advance/Discipline.antt =====
-- What holds of a whole pass of `_advance_dag` (engine/core/dag_advancer.py), whatever the other
-- tasks do between its statements.
use v10_engine.Prelude.{
  ℕ, suc, ◌≡◌, refl, ◌∙◌, sym, ap, subst, inl, inr, Bool, true, not, ◌%◌, ◌&&◌, Option, none, some,
  List, [], ◌∷◌, ◌++◌, arith, all, All, ◌==◌, if◌then◌else◌, Bool-cases, Option-cases,
}
use v10_engine.StateMachine.{NodeState, one_of}
use v10_engine.Store.{select_dag}
use v10_engine.Store.World.{World, Env, yield_to}
use v10_engine.Advancer.{NodeSnapshot}
use v10_engine.Advancer.Topo.{topological_sort}
use v10_engine.Advancer.Transition.Frame.{SameKey}
use v10_engine.Advancer.Visit.{Turn, find_node, deps_states, visit, done}
use v10_engine.Advancer.Visit.Launches.{Effect, none_started, started, retried, visit-Effect}
use v10_engine.Advancer.Advance.{
  Pass, put_node, turn_of, visit_at, breathe, visit_all, finish_pass, advance_loaded, advance_dag,
  begin_pass, update_dag, save_topo_order, is_paused, load_nodes,
}

pub id-find_node :
    (i : ℕ) (nodes : List NodeSnapshot) (n : NodeSnapshot) → find_node i nodes ≡ some n → n.id ≡ i
unfolding find_node
id-find_node i [] n h = ground arith
id-find_node i (m ∷ nodes) n h = ground (arith, id-find_node i nodes n)

pub find_node-put_node :
    (m : NodeSnapshot) (i j : ℕ) (nodes : List NodeSnapshot) (n : NodeSnapshot)
    → find_node i nodes ≡ some n
    → m.id ≡ i
    → find_node j (put_node m nodes) ≡ (if i == j then some m else find_node j nodes)
unfolding find_node put_node
find_node-put_node m i j [] n h e = ground arith
find_node-put_node m i j (x ∷ nodes) n h e = ground (arith, find_node-put_node m i j nodes n)

-- A dependency is done, or is no node of the DAG.
abbrev pub good_of : Option NodeSnapshot → Bool
good_of none = true
good_of (some n) = done n.state

unfoldable pub good : List NodeSnapshot → ℕ → Bool
good nodes d = good_of (find_node d nodes)

all-deps_states :
    (nodes : List NodeSnapshot) (deps : List ℕ)
    → all done (deps_states nodes deps) ≡ all (good nodes) deps
unfolding deps_states good
all-deps_states nodes [] = refl
all-deps_states nodes (d ∷ deps) = elim (Option-cases (find_node d nodes)) [
  | inl e ↦ ground (arith, all-deps_states nodes deps)
  | inr (n, e) ↦ ground (arith, all-deps_states nodes deps)
]

all_mono :
    (p q : ℕ → Bool) (xs : List ℕ)
    → ((d : ℕ) → p d ≡ true → q d ≡ true)
    → all p xs ≡ true
    → all q xs ≡ true
all_mono p q [] h m = refl
all_mono p q (x ∷ xs) h m = ground (arith, h x, all_mono p q xs h)

All-mono : (P Q : ℕ → Type 0) (xs : List ℕ) → ((x : ℕ) → P x → Q x) → All P xs → All Q xs
All-mono P Q [] h a = tt
All-mono P Q (x ∷ xs) h a = (h x a.0, All-mono P Q xs h a.1)

All-snoc : (P : ℕ → Type 0) (xs : List ℕ) (x : ℕ) → All P xs → P x → All P (xs ++ x ∷ [])
All-snoc P [] x a p = (p, tt)
All-snoc P (y ∷ xs) x a p = (a.0, All-snoc P xs x a.1 p)

-- D gives the dependencies of each node, which no task of this model changes during a pass.
pub record InOrder (D : ℕ → List ℕ) (nodes : List NodeSnapshot) (launched : List ℕ) : Type 0 where
  pub fixed : (i : ℕ) (n : NodeSnapshot) → find_node i nodes ≡ some n → n.deps ≡ D i
  pub behind : All (λ i. all (good nodes) (D i) ≡ true) launched

-- A node that is done is left alone.
visit-done :
    (env : Env) (deps : List NodeState) (t : Turn) → done t.node.state ≡ true → visit env deps t ≡ t
unfolding visit one_of
visit-done env deps t h = ground arith

-- One round, at the node n that stands at i, that leaves m in its place.
module _ (nodes : List NodeSnapshot) (i : ℕ) (n m : NodeSnapshot) (at : find_node i nodes ≡ some n)
    (key : SameKey n m) where
  pub found_at :
      (j : ℕ) → find_node j (put_node m nodes) ≡ (if i == j then some m else find_node j nodes)
  found_at j = find_node-put_node m i j nodes n at (key.same_id ∙ id-find_node i nodes n at)

  good-put_node :
      (done n.state ≡ true → m ≡ n)
      → (d : ℕ) → good nodes d ≡ true
      → good (put_node m nodes) d ≡ true
  unfolding good
  good-put_node left d g = elim (Bool-cases (i == d)) [
    | inl same ↦
        let e : i ≡ d = ground arith in
        let done_before : done n.state ≡ true = rw (← e, at) at g in
        rw (found_at d, same) (rw (left done_before) done_before)
    | inr other ↦ rw (found_at d, other) g
  ]

  fixed-put_node :
      (D : ℕ → List ℕ)
      → ((j : ℕ) (k : NodeSnapshot) → find_node j nodes ≡ some k → k.deps ≡ D j)
      → (j : ℕ) (k : NodeSnapshot) → find_node j (put_node m nodes) ≡ some k
      → k.deps ≡ D j
  fixed-put_node D fixed j k e = elim (Bool-cases (i == j)) [
    | inl same ↦
        let s : i ≡ j = ground arith in
        let e' = rw (found_at j, same) at e in
        let q : m ≡ k = ground arith in rw (← q, ← s) (key.same_deps ∙ fixed i n at)
    | inr other ↦ fixed j k (rw (found_at j, other) at e)
  ]

pub Effect-key :
    {deps : List NodeState} {b : Bool} {t u : Turn} → Effect deps b t u → SameKey t.node u.node
Effect-key (none_started k) = k.same_key
Effect-key (started d k l c r) = k
Effect-key (retried d k l c r) = k

-- What holds of the launches of before holds of those after, if it holds with the node's own.
launched-cases :
    {deps : List NodeState} {b : Bool} {t u : Turn} (P : List ℕ → Type 0)
    → Effect deps b t u
    → P t.result.launched
    → (all done deps ≡ true → P (t.result.launched ++ t.node.id ∷ []))
    → P u.result.launched
launched-cases P (none_started k) old new = subst P (sym k.same_launched) old
launched-cases P (started d k l c r) old new = subst P (sym l) (new d)
launched-cases P (retried d k l c r) old new = subst P (sym l) (new d)

module _ (env : Env) (D : ℕ → List ℕ) where
  breathe-InOrder :
      (k : ℕ) (p : Pass)
      → InOrder D p.nodes p.result.launched
      → InOrder D (breathe env k p).nodes (breathe env k p).result.launched
  breathe-InOrder k p inv = elim (Bool-cases (k % 200 == 0 && not (k == 0))) [
    | inl e ↦ rw e inv
    | inr e ↦ rw e inv
  ]

  visit_at-InOrder :
      (i : ℕ) (p : Pass)
      → InOrder D p.nodes p.result.launched
      → InOrder D (visit_at env i p).nodes (visit_at env i p).result.launched
  unfolding visit_at
  visit_at-InOrder i p inv = elim (Option-cases (find_node i p.nodes)) [
    | inl e ↦ rw (e, visit_at) inv
    | inr (n, e) ↦
        let deps = deps_states p.nodes n.deps in
        let t = turn_of p n in
        let u = visit env deps t in
        let effect = visit-Effect env deps t in
        let key = Effect-key effect in
        let left =
          λ (h : done n.state ≡ true). ap (λ (v : Turn). v.node) (visit-done env deps t h) in
        let still = good-put_node p.nodes i n u.node e key left in
        let kept =
          All-mono _ (λ j. all (good (put_node u.node p.nodes)) (D j) ≡ true) p.result.launched
            (λ j. all_mono (good p.nodes) (good (put_node u.node p.nodes)) (D j) still)
            inv.behind in
        let at_n : all (good p.nodes) (D n.id) ≡ all done deps =
          ap (λ j. all (good p.nodes) (D j)) (id-find_node i p.nodes n e)
          ∙ ap (all (good p.nodes)) (sym (inv.fixed i n e))
          ∙ sym (all-deps_states p.nodes n.deps) in
        let launch = λ (d : all done deps ≡ true).
          All-snoc (λ j. all (good (put_node u.node p.nodes)) (D j) ≡ true) p.result.launched n.id
            kept
            (all_mono (good p.nodes) (good (put_node u.node p.nodes)) (D n.id) still (at_n ∙ d)) in
        rw (e, visit_at)
          (record {
            fixed = fixed-put_node p.nodes i n u.node e key D inv.fixed;
            behind =
                launched-cases (All (λ j. all (good (put_node u.node p.nodes)) (D j) ≡ true)) effect
                  kept launch;
          })
  ]

  visit_all-InOrder :
      (k : ℕ) (order : List ℕ) (p : Pass)
      → InOrder D p.nodes p.result.launched
      → InOrder D (visit_all env k order p).nodes (visit_all env k order p).result.launched
  unfolding visit_all
  visit_all-InOrder k [] p inv = inv
  visit_all-InOrder k (i ∷ order) p inv =
      let q = breathe env k p in
      let q_inv : InOrder D q.nodes q.result.launched = breathe-InOrder k p inv in
      let step = visit_at-InOrder i q q_inv in
      elim (Option-cases (visit_at env i q).raised) [
        | inr (x, e) ↦ rw (e, visit_all) step
        | inl e ↦ rw (e, visit_all) (visit_all-InOrder (suc k) order (visit_at env i q) step)
      ]

-- Wherever i stands among the nodes of the pass, its dependencies are done, or are no nodes.
abbrev pub Behind : List NodeSnapshot → ℕ → Type 0
Behind nodes i = (n : NodeSnapshot) → find_node i nodes ≡ some n → all (good nodes) n.deps ≡ true

Behind-of_InOrder :
    (D : ℕ → List ℕ) (nodes : List NodeSnapshot) (launched : List ℕ)
    → InOrder D nodes launched
    → All (Behind nodes) launched
Behind-of_InOrder D nodes launched inv =
    All-mono (λ i. all (good nodes) (D i) ≡ true) (Behind nodes) launched
      (λ i h n e. rw (inv.fixed i n e) h) inv.behind

abbrev deps_at : List NodeSnapshot → ℕ → List ℕ
deps_at nodes i = elim (find_node i nodes) [ none ↦ [] | some n ↦ n.deps ]

pub finish_pass-nodes :
    (env : Env) (dag : ℕ) (p : Pass)
    → ((finish_pass env dag p).nodes ≡ p.nodes)
      × ((finish_pass env dag p).result.launched ≡ p.result.launched)
unfolding finish_pass
finish_pass-nodes env dag p = elim (Option-cases p.raised) [
  | inr (x, e) ↦ (ground arith, ground arith)
  | inl e ↦ (ground arith, ground arith)
]

-- The nodes that a pass launches from loaded nodes stand behind what they depend on.
pub advance_loaded-Behind :
    (env : Env) (dag : ℕ) (nodes : List NodeSnapshot) (w : World)
    → let p = advance_loaded env dag nodes w in All (Behind p.nodes) p.result.launched
unfolding advance_loaded
advance_loaded-Behind env dag nodes w = elim (Option-cases (topological_sort nodes)) [
  | inl e ↦ rw (e, advance_loaded) tt
  | inr (order, e) ↦
      let start =
        begin_pass dag nodes (update_dag env dag (save_topo_order order) (yield_to env w)) in
      let p = visit_all env 0 order start in
      let (same_nodes, same_launched) = finish_pass-nodes env dag p in
      rw (e, advance_loaded)
        (rw (same_nodes, same_launched)
          (Behind-of_InOrder (deps_at nodes) p.nodes p.result.launched (
            visit_all-InOrder env (deps_at nodes) 0 order start
              (record { fixed = λ i n f. ground (arith, f); behind = tt }))))
]

-- By the pass's own knowledge, that is by the snapshots that it has loaded and brought up to date with
-- its own transitions, every node that `_advance_dag` launches has only dependencies that are COMPLETED
-- or SKIPPED, or are no nodes of the DAG. This holds among all writes of other tasks, but says nothing
-- of the rows that they have changed after the load.
pub advance_dag-Behind :
    (env : Env) (dag : ℕ) (w : World)
    → let p = advance_dag env dag w in All (Behind p.nodes) p.result.launched
unfolding advance_dag
advance_dag-Behind env dag w =
    let w1 = yield_to env w in
    let w2 = yield_to env w1 in
    let w3 = yield_to env w2 in
    elim (Bool-cases (is_paused (select_dag dag w1.dags))) [
      | inl idle ↦ rw idle tt
      | inr open_dag ↦ rw open_dag (loaded (load_nodes dag w2 w3) (yield_to env w3))
    ]
  where
    loaded :
        (nodes : List NodeSnapshot) (v : World)
        → let p : Pass = elim nodes [
          | [] ↦ begin_pass dag [] v
          | n ∷ ns ↦ advance_loaded env dag (n ∷ ns) v
        ] in
          All (Behind p.nodes) p.result.launched
    loaded [] v = tt
    loaded (n ∷ ns) v = advance_loaded-Behind env dag (n ∷ ns) v
