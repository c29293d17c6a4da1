-- ===== src/Advancer/Visit/Launches.antt =====
-- Which nodes one round of `_advance_dag` (engine/core/dag_advancer.py) launches, whatever the other
-- tasks do.
use v10_engine.Prelude.{
  suc, ◌≡◌, refl, ◌∙◌, ap, ◌⊎◌, inl, inr, Bool, true, false, ◌&&◌, none, some, List, [], ◌∷◌, ◌++◌,
  arith, all, any, ltb, if◌then◌else◌, ◌<◌, Bool-cases, Option-cases,
}
use v10_engine.StateMachine.{
  InvalidTransitionError, NodeState, completed, awaiting_approval, blocked, ready, in_progress,
  failed, state_eq,
}
use v10_engine.Store.World.{Env}
use v10_engine.Advancer.Transition.Frame.{
  SameKey, SameKey-refl, SameKey-trans, transition_node-SameKey,
}
use v10_engine.Advancer.Visit.{
  Turn, move, launch_node, launch_below, handle_gate, start_gate, settle_gate, visit_failed,
  visit_free, visit_broken, visit_pending, visit, done, settled, max_concurrent_nodes, ◌then_do◌,
  add_launched, add_blocked, add_pending, waiting, count_launch, is_gate, broken,
}

-- What a step of a round keeps: the node is the same but for state and version, the launches are
-- those of before, and so is their count.
pub record Keeps (t u : Turn) : Type 0 where
  pub same_key : SameKey t.node u.node
  pub same_launched : u.result.launched ≡ t.result.launched
  pub same_count : u.in_progress_count ≡ t.in_progress_count

Keeps-refl : (t : Turn) → Keeps t t
Keeps-refl t = record { same_key = SameKey-refl t.node; same_launched = refl; same_count = refl }

Keeps-trans : {t u v : Turn} → Keeps t u → Keeps u v → Keeps t v
Keeps-trans a b = record {
  same_key = SameKey-trans a.same_key b.same_key;
  same_launched = b.same_launched ∙ a.same_launched;
  same_count = b.same_count ∙ a.same_count;
}

move-Keeps : (env : Env) (to : NodeState) (t : Turn) → Keeps t (move env to t)
unfolding move
move-Keeps env to t = record {
  same_key = transition_node-SameKey env to t.node t.world;
  same_launched = refl;
  same_count = refl;
}

-- A step is skipped or made.
pub then_do-cases : (u : Turn) (f : Turn → Turn) → ((u then_do f) ≡ u) ⊎ ((u then_do f) ≡ f u)
then_do-cases u f = elim (Option-cases u.raised) [
  | inl e ↦ inr (ground arith)
  | inr (x, e) ↦ inl (ground arith)
]

then_do-Keeps :
    (t u : Turn) (f : Turn → Turn)
    → Keeps t u
    → ((v : Turn) → Keeps v (f v))
    → Keeps t (u then_do f)
then_do-Keeps t u f k h = elim (then_do-cases u f) [
  | inl e ↦ rw e k
  | inr e ↦ rw e (Keeps-trans k (h u))
]

if-Keeps : (b : Bool) (t u v : Turn) → Keeps t u → Keeps t v → Keeps t (if b then u else v)
if-Keeps true t u v ku kv = ku
if-Keeps false t u v ku kv = kv

ruleset keeps = (Keeps-refl, move-Keeps)

-- What one round does: no launch, a launch that is counted and within the limit, or the launch of a
-- FAILED node, which is not counted. A launch finds all dependencies done.
pub data Effect (deps : List NodeState) (was_failed : Bool) (t u : Turn) : Type 0 where
  none_started : Keeps t u → Effect deps was_failed t u
  started :
      all done deps ≡ true
      → SameKey t.node u.node
      → u.result.launched ≡ t.result.launched ++ t.node.id ∷ []
      → u.in_progress_count ≡ suc t.in_progress_count
      → t.in_progress_count < max_concurrent_nodes
      → Effect deps was_failed t u
  retried :
      all done deps ≡ true
      → SameKey t.node u.node
      → u.result.launched ≡ t.result.launched ++ t.node.id ∷ []
      → u.in_progress_count ≡ t.in_progress_count
      → was_failed ≡ true
      → Effect deps was_failed t u

settle_gate-Keeps : (env : Env) (t : Turn) → Keeps t (settle_gate env t)
unfolding settle_gate
settle_gate-Keeps env t = if-Keeps _ t t _ (Keeps-refl t) (
    if-Keeps t.node.gate_auto_approve t _ _ (move-Keeps env completed t) (
      then_do-Keeps t (move env awaiting_approval t) add_pending
        (move-Keeps env awaiting_approval t)
        (λ v. record { same_key = SameKey-refl v.node; same_launched = refl; same_count = refl })))

start_gate-Keeps : (env : Env) (t : Turn) → Keeps t (start_gate env t)
unfolding start_gate
start_gate-Keeps env t = if-Keeps _ t _ t (move-Keeps env in_progress t) (Keeps-refl t)

handle_gate-Keeps : (env : Env) (t : Turn) → Keeps t (handle_gate env t)
unfolding handle_gate
handle_gate-Keeps env t = if-Keeps _ t t _ (Keeps-refl t) (
    then_do-Keeps t _ (settle_gate env)
      (then_do-Keeps t _ (start_gate env)
        (if-Keeps (waiting t.node.state) t (move env ready t) t (move-Keeps env ready t)
          (Keeps-refl t))
        (start_gate-Keeps env))
      (settle_gate-Keeps env))

then_do-none : (u : Turn) (f : Turn → Turn) → u.raised ≡ none → (u then_do f) ≡ f u
then_do-none u f e = ground arith

then_do-some :
    (u : Turn) (f : Turn → Turn) {x : InvalidTransitionError}
    → u.raised ≡ some x
    → (u then_do f) ≡ u
then_do-some u f e = ground arith

record Raises (t u : Turn) : Type 0 where
  kept : Keeps t u
  error : InvalidTransitionError
  raising : u.raised ≡ some error

record Launches (t u : Turn) : Type 0 where
  same : SameKey t.node u.node
  one : u.result.launched ≡ t.result.launched ++ t.node.id ∷ []
  uncounted : u.in_progress_count ≡ t.in_progress_count
  fine : u.raised ≡ none

-- A launch raises, or adds the node to the result.
launch_node-cases :
    (env : Env) (t : Turn) → Raises t (launch_node env t) ⊎ Launches t (launch_node env t)
unfolding launch_node
launch_node-cases env t =
    let u = move env in_progress t in
    let k = move-Keeps env in_progress t in
    elim (Option-cases u.raised) [
      | inl e ↦ rw (then_do-none u add_launched e) (
          inr (record {
            same = k.same_key;
            one = ground (arith, k.same_launched, k.same_key.same_id);
            uncounted = k.same_count;
            fine = e;
          }))
      | inr (x, e) ↦
          rw (then_do-some u add_launched e) (inl (record { kept = k; error = x; raising = e }))
    ]

module _ (env : Env) (deps : List NodeState) (was_failed : Bool) where
  Effect-after :
      {t u v : Turn} → Keeps t u → Effect deps was_failed u v → Effect deps was_failed t v
  Effect-after k (none_started k') = none_started (Keeps-trans k k')
  Effect-after {u = u} k (started d i l c r) =
      started d (SameKey-trans k.same_key i) (ground (arith, k.same_launched, k.same_key.same_id))
        (ground (arith, k.same_count)) (ground (arith, k.same_count))
  Effect-after {u = u} k (retried d i l c r) =
      retried d (SameKey-trans k.same_key i) (ground (arith, k.same_launched, k.same_key.same_id))
        (c ∙ k.same_count) r

  move_then-Effect :
      (to : NodeState) (t : Turn) (f : Turn → Turn)
      → ((u : Turn) → Effect deps was_failed u (f u))
      → Effect deps was_failed t (move env to t then_do f)
  move_then-Effect to t f h = elim (then_do-cases (move env to t) f) [
    | inl e ↦ rw e (none_started (move-Keeps env to t))
    | inr e ↦ rw e (Effect-after (move-Keeps env to t) (h (move env to t)))
  ]

  launch_below-Effect :
      (t : Turn) → all done deps ≡ true → Effect deps was_failed t (launch_below env t)
  unfolding launch_below
  launch_below-Effect t ok = elim (Bool-cases (ltb t.in_progress_count max_concurrent_nodes)) [
    | inr full ↦ rw full (none_started (Keeps-refl t))
    | inl room ↦ rw room (elim (launch_node-cases env t) [
      | inl r ↦ rw (then_do-some (launch_node env t) count_launch r.raising) (none_started r.kept)
      | inr l ↦
          rw (then_do-none (launch_node env t) count_launch l.fine)
            (started ok l.same l.one (ap suc l.uncounted) (ground arith))
    ])
  ]

  visit_failed-Effect :
      (t : Turn) → was_failed ≡ true → Effect deps was_failed t (visit_failed env deps t)
  unfolding visit_failed
  visit_failed-Effect t h =
      elim (Bool-cases (ltb t.node.retry_count t.node.max_retries && all done deps)) [
        | inr none_left ↦ rw none_left (none_started (Keeps-refl t))
        | inl left ↦ rw left (
            move_then-Effect ready t (launch_node env) (λ u. elim (launch_node-cases env u) [
              | inl r ↦ none_started r.kept
              | inr l ↦ retried (ground arith) l.same l.one l.uncounted h
            ]))
      ]

  visit_free-Effect :
      (t : Turn) → all done deps ≡ true → Effect deps was_failed t (visit_free env t)
  unfolding visit_free
  visit_free-Effect t ok =
      if-Effect (is_gate t.node.node_type) t (handle_gate env t) _
        (none_started (handle_gate-Keeps env t))
        (if-Effect (state_eq t.node.state ready) t (launch_below env t) _ (launch_below-Effect t ok)
          (if-Effect (waiting t.node.state) t _ t
            (move_then-Effect ready t (launch_below env) (λ u. launch_below-Effect u ok))
            (none_started (Keeps-refl t))))
    where
      if-Effect :
          (b : Bool) (s u v : Turn)
          → Effect deps was_failed s u
          → Effect deps was_failed s v
          → Effect deps was_failed s (if b then u else v)
      if-Effect true s u v eu ev = eu
      if-Effect false s u v eu ev = ev

add_blocked-Keeps : (t : Turn) → Keeps t (add_blocked t)
add_blocked-Keeps t = record {
  same_key = SameKey-refl t.node;
  same_launched = refl;
  same_count = refl;
}

visit_broken-Keeps : (env : Env) (t : Turn) → Keeps t (visit_broken env t)
unfolding visit_broken
visit_broken-Keeps env t =
    then_do-Keeps t _ add_blocked
      (if-Keeps _ t (move env blocked t) t (move-Keeps env blocked t) (Keeps-refl t))
      add_blocked-Keeps

visit_pending-Keeps : (env : Env) (t : Turn) → Keeps t (visit_pending env t)
unfolding visit_pending
visit_pending-Keeps env t =
    if-Keeps _ t _ t
      (then_do-Keeps t (move env blocked t) add_blocked (move-Keeps env blocked t)
        add_blocked-Keeps)
      (Keeps-refl t)

-- Whatever the other tasks do, a round launches its own node at most, and only where all of its
-- dependencies are done; the launch is counted and within the limit, but for that of a FAILED node.
pub visit-Effect :
    (env : Env) (deps : List NodeState) (t : Turn)
    → Effect deps (state_eq t.node.state failed) t (visit env deps t)
unfolding visit
visit-Effect env deps t = elim (Bool-cases (settled t.node.state)) [
  | inl rest ↦ rw rest (none_started (Keeps-refl t))
  | inr active ↦ rw active (elim (Bool-cases (state_eq t.node.state failed)) [
    | inl f ↦ rw f (visit_failed-Effect env deps true t refl)
    | inr f ↦ rw f (elim (Bool-cases (any broken deps)) [
      | inl b ↦ rw b (none_started (visit_broken-Keeps env t))
      | inr b ↦ rw b (elim (Bool-cases (all done deps)) [
        | inl d ↦ rw d (visit_free-Effect env deps false t d)
        | inr d ↦ rw d (none_started (visit_pending-Keeps env t))
      ])
    ])
  ])
]
