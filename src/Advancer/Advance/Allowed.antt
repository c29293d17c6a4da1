-- ===== src/Advancer/Advance/Allowed.antt =====
-- A whole pass of `_advance_dag` (engine/core/dag_advancer.py) writes only allowed transitions.
use v10_engine.Prelude.{
  ℕ, suc, ◌≡◌, refl, inl, inr, not, ◌%◌, ◌&&◌, some, List, [], ◌∷◌, arith, ◌==◌, Bool-cases,
  Option-cases,
}
use v10_engine.Store.{DagRow}
use v10_engine.Store.World.{World, Env, Respects, yield_to}
use v10_engine.Advancer.{NodeSnapshot}
use v10_engine.Advancer.Topo.{topological_sort}
use v10_engine.Advancer.Transition.Safety.{Run, stop, turn, aside, IsCoherent}
use v10_engine.Advancer.Visit.{find_node, deps_states, visit}
use v10_engine.Advancer.Visit.Launches.{visit-Effect}
use v10_engine.Advancer.Visit.Sound.{Run-trans, Run-IsCoherent, visit-Sound}
use v10_engine.Advancer.Advance.{
  Pass, turn_of, visit_at, breathe, visit_all, finish_pass, advance_loaded, all_done, begin_pass,
  update_dag, save_topo_order,
}
use v10_engine.Advancer.Advance.Discipline.{found_at, Effect-key}

-- No node of the pass is ahead of its row.
abbrev pub AllCoherent : List NodeSnapshot → World → Type 0
AllCoherent nodes w = (i : ℕ) (n : NodeSnapshot) → find_node i nodes ≡ some n → IsCoherent n w

-- The pass has run from `w` by allowed writes, and none of its nodes is ahead of its row.
abbrev pub Reaches : Env → World → Pass → Type 0
Reaches env w p = Run env w p.world × AllCoherent p.nodes p.world

update_dag-Run :
    (env : Env) (dag : ℕ) (f : DagRow → DagRow) (w : World) → Run env w (update_dag env dag f w)
unfolding update_dag
update_dag-Run env dag f w = turn (aside (update_dag env dag f w) refl stop)

module _ (env : Env) (respects : Respects env) where
  pub Run-AllCoherent :
      {w v : World} (nodes : List NodeSnapshot)
      → Run env w v
      → AllCoherent nodes w
      → AllCoherent nodes v
  Run-AllCoherent nodes p c i n e = Run-IsCoherent n respects p (c i n e)

  visit_at-Reaches :
      (i : ℕ) (p : Pass) → AllCoherent p.nodes p.world → Reaches env p.world (visit_at env i p)
  unfolding visit_at
  visit_at-Reaches i p c = elim (Option-cases (find_node i p.nodes)) [
    | inl e ↦ rw (e, visit_at) (stop, c)
    | inr (n, e) ↦
        let deps = deps_states p.nodes n.deps in
        let t = turn_of p n in
        let u = visit env deps t in
        let (r, d) = (visit-Sound env respects deps t).safe (c i n e) in
        let found = found_at p.nodes i n u.node e (Effect-key (visit-Effect env deps t)) in
        rw (e, visit_at)
          (
            r,
            λ j k f. elim (Bool-cases (i == j)) [
              | inl same ↦
                  let f' = rw (found j, same) at f in
                  let q : u.node ≡ k = ground arith in rw (← q) d
              | inr other ↦ Run-IsCoherent k respects r (c j k (rw (found j, other) at f))
            ],
          )
  ]

  breathe-Reaches :
      (k : ℕ) (p : Pass) → AllCoherent p.nodes p.world → Reaches env p.world (breathe env k p)
  breathe-Reaches k p c = elim (Bool-cases (k % 200 == 0 && not (k == 0))) [
    | inl e ↦ rw e (turn stop, Run-AllCoherent p.nodes (turn stop) c)
    | inr e ↦ rw e (stop, c)
  ]

  visit_all-Reaches :
      (k : ℕ) (order : List ℕ) (p : Pass)
      → AllCoherent p.nodes p.world
      → Reaches env p.world (visit_all env k order p)
  unfolding visit_all
  visit_all-Reaches k [] p c = (stop, c)
  visit_all-Reaches k (i ∷ order) p c =
      let q = breathe env k p in
      let (r, d) = breathe-Reaches k p c in
      let (s, e) = visit_at-Reaches i q d in
      elim (Option-cases (visit_at env i q).raised) [
        | inr (x, raised) ↦ rw (raised, visit_all) (Run-trans r s, e)
        | inl fine ↦
            let (z, g) = visit_all-Reaches (suc k) order (visit_at env i q) e in
            rw (fine, visit_all) (Run-trans r (Run-trans s z), g)
      ]

  finish_pass-Reaches :
      (dag : ℕ) (p : Pass)
      → AllCoherent p.nodes p.world
      → Reaches env p.world (finish_pass env dag p)
  unfolding finish_pass
  finish_pass-Reaches dag p c = elim (Option-cases p.raised) [
    | inr (x, e) ↦ rw (e, finish_pass) (stop, c)
    | inl e ↦ elim (Bool-cases (all_done p.nodes)) [
      | inr open_nodes ↦ rw (e, open_nodes, finish_pass) (stop, c)
      | inl over ↦
          let r = update_dag-Run env dag _ p.world in
          rw (e, over, finish_pass) (r, Run-AllCoherent p.nodes r c)
    ]
  ]

-- Whatever the other tasks do by the protocol of the lock, a pass that starts with snapshots of which
-- none is ahead of its row makes only allowed transitions of the rows as they are when it writes, and
-- leaves no snapshot ahead of its row.
pub advance_loaded-Reaches :
    (env : Env) (dag : ℕ) (nodes : List NodeSnapshot) (w : World)
    → Respects env
    → AllCoherent nodes w
    → Reaches env w (advance_loaded env dag nodes w)
unfolding advance_loaded
advance_loaded-Reaches env dag nodes w respects c = elim (Option-cases (topological_sort nodes)) [
  | inl e ↦
      let r = update_dag-Run env dag _ w in
      rw (e, advance_loaded) (r, Run-AllCoherent env respects nodes r c)
  | inr (order, e) ↦
      let v = update_dag env dag (save_topo_order order) (yield_to env w) in
      let r : Run env w v =
        turn (update_dag-Run env dag (save_topo_order order) (yield_to env w)) in
      let (s, d) =
        visit_all-Reaches env respects 0 order (begin_pass dag nodes v)
          (Run-AllCoherent env respects nodes r c) in
      let (z, g) = finish_pass-Reaches env respects dag _ d in
      rw (e, advance_loaded) (Run-trans r (Run-trans s z), g)
]
