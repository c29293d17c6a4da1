-- ===== src/Advancer/Visit/Sound.antt =====
-- One round of `_advance_dag` (engine/core/dag_advancer.py) writes only allowed transitions.
use v10_engine.Prelude.{
  refl, inl, inr, Bool, true, false, all, any, arith, if◌then◌else◌, List, Option, some, none,
}
use v10_engine.StateMachine.{
  NodeState, failed, state_eq, completed, awaiting_approval, blocked, ready, in_progress,
}
use v10_engine.Store.{select, NodeRow}
use v10_engine.Store.World.{World, Env, Follows, Respects}
use v10_engine.Store.Protocol.{Follows-refl, Follows-trans, yield_to-Follows}
use v10_engine.Advancer.{NodeSnapshot}
use v10_engine.Advancer.Transition.Safety.{
  Run, stop, turn, aside, write, Steps, IsCoherent, Agrees-Follows, transition_node-Safe,
}
use v10_engine.Advancer.Visit.{
  Turn, move, broken, done, settled, launch_node, launch_below, handle_gate, start_gate,
  settle_gate, visit_failed, visit_free, visit_broken, visit_pending, visit, ◌then_do◌,
  add_launched, add_blocked, add_pending, count_launch,
}
use v10_engine.Advancer.Visit.Launches.{then_do-cases}

pub Run-trans : {env : Env} {w v u : World} → Run env w v → Run env v u → Run env w u
Run-trans stop q = q
Run-trans (turn p) q = turn (Run-trans p q)
Run-trans (aside x e p) q = aside x e (Run-trans p q)
Run-trans (write rows s p) q = write rows s (Run-trans p q)

Follows-Steps : (o p : Option NodeRow) → Steps o p → Follows o p
Follows-Steps none none s = tt
Follows-Steps none (some r) s = s
Follows-Steps (some r) none s = absurd s
Follows-Steps (some r) (some r') (inl s) = inl (s.1, s.0)
Follows-Steps (some r) (some r') (inr s) = inr (omega (arith, s.1))

-- A run keeps to the protocol of the lock at each row.
pub Run-Follows :
    {env : Env} {w v : World}
    → Respects env
    → Run env w v
    → (i : _) → Follows (select i w.nodes) (select i v.nodes)
Run-Follows {w = w} respects stop i = Follows-refl (select i w.nodes)
Run-Follows {env} {w = w} {v = v} respects (turn p) i =
    Follows-trans (select i w.nodes) _ (select i v.nodes) (yield_to-Follows env w respects i)
      (Run-Follows respects p i)
Run-Follows {w = w} {v = v} respects (aside x e p) i = rw e at (Run-Follows respects p i)
Run-Follows {w = w} {v = v} respects (write rows s p) i =
    Follows-trans (select i w.nodes) (select i rows) (select i v.nodes)
      (Follows-Steps (select i w.nodes) (select i rows) (s i)) (Run-Follows respects p i)

-- A snapshot that is not ahead of its row stays so.
pub Run-IsCoherent :
    {env : Env} {w v : World} (node : NodeSnapshot)
    → Respects env
    → Run env w v
    → IsCoherent node w
    → IsCoherent node v
Run-IsCoherent node respects p c = Agrees-Follows node _ _ c (Run-Follows respects p node.id)

-- From a coherent snapshot, a step runs by allowed writes and leaves its snapshot coherent.
pub record Sound (env : Env) (t u : Turn) : Type 0 where
  pub safe : IsCoherent t.node t.world → Run env t.world u.world × IsCoherent u.node u.world

module _ (env : Env) where
  Sound-refl : (t : Turn) → Sound env t t
  Sound-refl t = record { safe = λ c. (stop, c) }

  Sound-trans : {t u v : Turn} → Sound env t u → Sound env u v → Sound env t v
  Sound-trans a b = record {
    safe = λ c. let (p, d) = a.safe c in let (q, e) = b.safe d in (Run-trans p q, e);
  }

  if-Sound :
      (b : Bool) (t u v : Turn) → Sound env t u → Sound env t v → Sound env t (if b then u else v)
  if-Sound true t u v p q = p
  if-Sound false t u v p q = q

  then_do-Sound :
      (t u : Turn) (f : Turn → Turn)
      → Sound env t u
      → ((v : Turn) → Sound env v (f v))
      → Sound env t (u then_do f)
  then_do-Sound t u f p h = elim (then_do-cases u f) [
    | inl e ↦ rw e p
    | inr e ↦ rw e (Sound-trans p (h u))
  ]

  module _ (respects : Respects env) where
    move-Sound : (to : NodeState) (t : Turn) → Sound env t (move env to t)
    unfolding move
    move-Sound to t = record { safe = transition_node-Safe env to t.node t.world respects }

    launch_node-Sound : (t : Turn) → Sound env t (launch_node env t)
    unfolding launch_node
    launch_node-Sound t =
        then_do-Sound t (move env in_progress t) add_launched (move-Sound in_progress t)
          (λ v. record { safe = λ c. (aside (add_launched v).world refl stop, c) })

    launch_below-Sound : (t : Turn) → Sound env t (launch_below env t)
    unfolding launch_below
    launch_below-Sound t =
        if-Sound _ t _ t
          (then_do-Sound t (launch_node env t) count_launch (launch_node-Sound t)
            (λ v. record { safe = λ c. (stop, c) }))
          (Sound-refl t)

    settle_gate-Sound : (t : Turn) → Sound env t (settle_gate env t)
    unfolding settle_gate
    settle_gate-Sound t = if-Sound _ t t _ (Sound-refl t) (
        if-Sound t.node.gate_auto_approve t _ _ (move-Sound completed t) (
          then_do-Sound t (move env awaiting_approval t) add_pending
            (move-Sound awaiting_approval t) (λ v. record { safe = λ c. (stop, c) })))

    start_gate-Sound : (t : Turn) → Sound env t (start_gate env t)
    unfolding start_gate
    start_gate-Sound t = if-Sound _ t _ t (move-Sound in_progress t) (Sound-refl t)

    handle_gate-Sound : (t : Turn) → Sound env t (handle_gate env t)
    unfolding handle_gate
    handle_gate-Sound t = if-Sound _ t t _ (Sound-refl t) (
        then_do-Sound t _ (settle_gate env)
          (then_do-Sound t _ (start_gate env)
            (if-Sound _ t (move env ready t) t (move-Sound ready t) (Sound-refl t))
            start_gate-Sound)
          settle_gate-Sound)

    visit_failed-Sound : (deps : List NodeState) (t : Turn) → Sound env t (visit_failed env deps t)
    unfolding visit_failed
    visit_failed-Sound deps t =
        if-Sound _ t _ t
          (then_do-Sound t (move env ready t) (launch_node env) (move-Sound ready t)
            launch_node-Sound)
          (Sound-refl t)

    visit_free-Sound : (t : Turn) → Sound env t (visit_free env t)
    unfolding visit_free
    visit_free-Sound t = if-Sound _ t _ _ (handle_gate-Sound t) (
        if-Sound _ t _ _ (launch_below-Sound t) (
          if-Sound _ t _ t
            (then_do-Sound t (move env ready t) (launch_below env) (move-Sound ready t)
              launch_below-Sound)
            (Sound-refl t)))

    blocking-Sound : (t u : Turn) → Sound env t u → Sound env t (u then_do add_blocked)
    blocking-Sound t u p = then_do-Sound t u add_blocked p (λ v. record { safe = λ c. (stop, c) })

    visit_broken-Sound : (t : Turn) → Sound env t (visit_broken env t)
    unfolding visit_broken
    visit_broken-Sound t =
        blocking-Sound t _
          (if-Sound _ t (move env blocked t) t (move-Sound blocked t) (Sound-refl t))

    visit_pending-Sound : (t : Turn) → Sound env t (visit_pending env t)
    unfolding visit_pending
    visit_pending-Sound t =
        if-Sound _ t _ t (blocking-Sound t (move env blocked t) (move-Sound blocked t))
          (Sound-refl t)

    -- Whatever the other tasks do by the protocol of the lock, a round that starts with a snapshot not
    -- ahead of its row makes only allowed transitions of the rows as they are when it writes, and
    -- leaves the snapshot so.
    pub visit-Sound : (deps : List NodeState) (t : Turn) → Sound env t (visit env deps t)
    unfolding visit
    visit-Sound deps t = if-Sound (settled t.node.state) t t _ (Sound-refl t) (
        if-Sound (state_eq t.node.state failed) t (visit_failed env deps t) _
          (visit_failed-Sound deps t)
          (if-Sound (any broken deps) t (visit_broken env t) _ (visit_broken-Sound t) (
            if-Sound (all done deps) t (visit_free env t) (visit_pending env t) (visit_free-Sound t)
              (visit_pending-Sound t))))
