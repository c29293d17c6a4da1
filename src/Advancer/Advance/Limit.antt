-- ===== src/Advancer/Advance/Limit.antt =====
-- How many nodes a pass of `_advance_dag` (engine/core/dag_advancer.py) launches.
use v10_engine.Prelude.{
  ℕ, suc, ◌+◌, ◌≤◌, ◌≡◌, ◌∙◌, ap, inl, inr, Bool, true, false, not, ◌%◌, ◌&&◌, Option, some, List,
  [], ◌∷◌, arith, All, ◌==◌, ==_refl, if◌then◌else◌, Bool-cases, Option-cases, length,
  length-append, elem, max,
}
use v10_engine.Prelude.Distinct.{Distinct}
use v10_engine.StateMachine.{NodeState, state_eq, failed}
use v10_engine.Store.World.{World, Env, yield_to}
use v10_engine.Advancer.{NodeSnapshot}
use v10_engine.Advancer.Topo.{topological_sort}
use v10_engine.Advancer.Topo.Order.{topological_sort-IsTopological}
use v10_engine.Advancer.Visit.{Turn, find_node, deps_states, visit, max_concurrent_nodes}
use v10_engine.Advancer.Visit.Launches.{Effect, none_started, started, retried, visit-Effect}
use v10_engine.Advancer.Advance.{
  Pass, turn_of, visit_at, breathe, visit_all, advance_loaded, begin_pass, in_progress_of,
  update_dag, save_topo_order,
}
use v10_engine.Advancer.Advance.Discipline.{found_at, Effect-key, finish_pass-nodes}

find_node-All :
    (i : ℕ) (nodes : List NodeSnapshot) (n : NodeSnapshot)
    → find_node i nodes ≡ some n
    → All (λ m. state_eq m.state failed ≡ false) nodes
    → state_eq n.state failed ≡ false
unfolding find_node
find_node-All i [] n f a = ground arith
find_node-All i (m ∷ nodes) n f a = elim (Bool-cases (m.id == i)) [
  | inl here ↦ let e : m ≡ n = ground arith in rw (← e) a.0
  | inr there ↦ find_node-All i nodes n (ground arith) a.1
]

-- c nodes were in progress; the nodes still to visit are not FAILED.
record Within (c : ℕ) (rest : List ℕ) (p : Pass) : Type 0 where
  calm :
      (i : ℕ)
      → elem i rest ≡ true
      → (n : NodeSnapshot) → find_node i p.nodes ≡ some n
      → state_eq n.state failed ≡ false
  counted : p.in_progress_count ≡ c + length p.result.launched
  bounded : p.in_progress_count ≤ max c max_concurrent_nodes

Effect-count :
    {deps : List NodeState} {b : Bool} {t u : Turn} (c : ℕ)
    → Effect deps b t u
    → b ≡ false
    → t.in_progress_count ≡ c + length t.result.launched
    → t.in_progress_count ≤ max c max_concurrent_nodes
    → (u.in_progress_count ≡ c + length u.result.launched)
      × (u.in_progress_count ≤ max c max_concurrent_nodes)
Effect-count c (none_started k) h e m =
    (ground (arith, k.same_launched), omega (arith, k.same_count))
Effect-count {t = t} c (started d k l n r) h e m =
    (n ∙ omega (arith, ap length l, length-append t.result.launched (t.node.id ∷ [])), omega arith)
Effect-count c (retried d k l n r) h e m = absurd (ground arith)

module _ (env : Env) (c : ℕ) where
  breathe-Within :
      (k : ℕ) (rest : List ℕ) (p : Pass) → Within c rest p → Within c rest (breathe env k p)
  breathe-Within k rest p inv = elim (Bool-cases (k % 200 == 0 && not (k == 0))) [
    | inl e ↦ rw e (record { calm = inv.calm; counted = inv.counted; bounded = inv.bounded })
    | inr e ↦ rw e inv
  ]

  visit_at-Within :
      (i : ℕ) (rest : List ℕ) (p : Pass)
      → elem i rest ≡ false
      → Within c (i ∷ rest) p
      → Within c rest (visit_at env i p)
  unfolding visit_at
  visit_at-Within i rest p absent inv = elim (Option-cases (find_node i p.nodes)) [
    | inl e ↦
        rw (e, visit_at)
          (record {
            calm = λ j m. inv.calm j (ground arith);
            counted = inv.counted;
            bounded = inv.bounded;
          })
    | inr (n, e) ↦
        let deps = deps_states p.nodes n.deps in
        let t = turn_of p n in
        let u = visit env deps t in
        let effect = visit-Effect env deps t in
        let (counted, bounded) =
          Effect-count c effect (inv.calm i (ground (arith, ==_refl i)) n e) inv.counted
            inv.bounded in
        rw (e, visit_at)
          (record {
            calm = λ j m k f.
                inv.calm j (ground arith) k
                  (elsewhere j m k u.node (found_at p.nodes i n u.node e (Effect-key effect) j) f);
            counted = counted;
            bounded = bounded;
          })
  ]
    where
      elsewhere :
          (j : ℕ)
          → elem j rest ≡ true
          → (k v : NodeSnapshot) {o o' : Option NodeSnapshot} → o ≡ (if i == j then some v else o')
          → o ≡ some k
          → o' ≡ some k
      elsewhere j m k v e f = elim (Bool-cases (i == j)) [
        | inl same ↦ absurd (ground arith)
        | inr other ↦ ground arith
      ]

  visit_all-Within :
      (k : ℕ) (order : List ℕ) (p : Pass)
      → Distinct order
      → Within c order p
      → (visit_all env k order p).in_progress_count
          ≡ c + length (visit_all env k order p).result.launched
        × ((visit_all env k order p).in_progress_count ≤ max c max_concurrent_nodes)
  unfolding visit_all
  visit_all-Within k [] p d inv = (inv.counted, inv.bounded)
  visit_all-Within k (i ∷ order) p d inv =
      let q = breathe env k p in
      let step = visit_at-Within i order q d.0 (breathe-Within k (i ∷ order) p inv) in
      elim (Option-cases (visit_at env i q).raised) [
        | inr (x, e) ↦ rw (e, visit_all) (step.counted, step.bounded)
        | inl e ↦ rw (e, visit_all) (visit_all-Within (suc k) order (visit_at env i q) d.1 step)
      ]

-- Where no loaded node is FAILED, the nodes in progress and those launched are together no more
-- than the limit, or than those in progress before.
pub launches_within_limit :
    (env : Env) (dag : ℕ) (nodes : List NodeSnapshot) (w : World)
    → All (λ n. state_eq n.state failed ≡ false) nodes
    → in_progress_of nodes + length (advance_loaded env dag nodes w).result.launched
      ≤ max (in_progress_of nodes) max_concurrent_nodes
unfolding advance_loaded
launches_within_limit env dag nodes w calm = elim (Option-cases (topological_sort nodes)) [
  | inl e ↦ rw (e, advance_loaded) (omega arith)
  | inr (order, e) ↦
      let c = in_progress_of nodes in
      let start =
        begin_pass dag nodes (update_dag env dag (save_topo_order order) (yield_to env w)) in
      let p = visit_all env 0 order start in
      let (counted, bounded) =
        visit_all-Within env c 0 order start (topological_sort-IsTopological nodes e).once (record {
          calm = λ i m n f. find_node-All i nodes n f calm;
          counted = omega arith;
          bounded = omega arith;
        }) in
      rw (e, advance_loaded) (rw (finish_pass-nodes env dag p).1 (omega arith))
]
