-- ===== src/Advancer/Transition/Frame.antt =====
-- What `_transition_node` (engine/core/dag_advancer.py) leaves alone, whatever the other tasks do.
use v10_engine.Prelude.{
  ℕ, zero, suc, ◌≡◌, refl, ap, ◌∙◌, Option, none, some, Bool-cases, Option-cases, inl, inr,
}
use v10_engine.StateMachine.{NodeState, state_eq, is_valid, transition}
use v10_engine.Store.{NodeRow, at_version, select, write_row, rows_affected}
use v10_engine.Store.World.{World, Env, yield_to, now, set_nodes}
use v10_engine.Advancer.{NodeSnapshot}
use v10_engine.Advancer.Transition.{
  Moved, set_state, sync, after_conflict, after_execute, attempts, transition_node,
}

-- All fields but the state and the version.
abbrev pub SameNode : NodeSnapshot → NodeSnapshot → Type 0
SameNode n m = m ≡ record n { state = m.state; version = m.version }

module _ (env : Env) (to : NodeState) where
  after_conflict-SameNode :
      (node : NodeSnapshot) (w : World) (o : Option NodeRow) (retry : NodeSnapshot → World → Moved)
      → ((n : NodeSnapshot) (v : World) → SameNode n (retry n v).node)
      → SameNode node (after_conflict env node to w o retry).node
  unfolding after_conflict
  after_conflict-SameNode node w none retry ih = refl
  after_conflict-SameNode node w (some fresh) retry ih =
      elim (Bool-cases (state_eq fresh.state to)) [
        | inl there ↦ rw there refl
        | inr elsewhere ↦ elim (Bool-cases (is_valid fresh.state to)) [
          | inl allowed ↦ rw elsewhere (rw allowed (ih (sync node fresh) (yield_to env w)))
          | inr refused ↦ rw elsewhere (rw refused refl)
        ]
      ]

  after_execute-SameNode :
      (node : NodeSnapshot) (w : World) (n : ℕ) (retry : NodeSnapshot → World → Moved)
      → ((n : NodeSnapshot) (v : World) → SameNode n (retry n v).node)
      → SameNode node (after_execute env node to w n retry).node
  unfolding after_execute
  after_execute-SameNode node w (suc n) retry ih = refl
  after_execute-SameNode node w zero retry ih =
      after_conflict-SameNode node (yield_to env w) (select node.id (yield_to env w).nodes) retry ih

  attempts-SameNode :
      (left : ℕ) (node : NodeSnapshot) (w : World)
      → SameNode node (attempts left env to node w).node
  unfolding attempts
  attempts-SameNode zero node w = refl
  attempts-SameNode (suc left) node w = elim (Option-cases (transition node.state to node.id)) [
    | inr (x, e) ↦ rw (e, attempts) refl
    | inl e ↦
        rw (e, attempts)
          (after_execute-SameNode node
            (set_nodes (yield_to env w) (
              write_row node.id (at_version node.version) (set_state to (now env w))
                (yield_to env w).nodes))
            (rows_affected node.id (at_version node.version) (yield_to env w).nodes)
            (attempts left env to) (attempts-SameNode left))
  ]

  pub transition_node-SameNode :
      (node : NodeSnapshot) (w : World) → SameNode node (transition_node env to node w).node
  unfolding transition_node
  transition_node-SameNode = attempts-SameNode 3

-- The fields by which a pass finds a node and what it waits for.
pub record SameKey (n m : NodeSnapshot) : Type 0 where
  pub same_id : m.id ≡ n.id
  pub same_deps : m.deps ≡ n.deps

pub SameKey-refl : (n : NodeSnapshot) → SameKey n n
SameKey-refl n = record { same_id = refl; same_deps = refl }

pub SameKey-trans : {n m k : NodeSnapshot} → SameKey n m → SameKey m k → SameKey n k
SameKey-trans a b = record {
  same_id = b.same_id ∙ a.same_id;
  same_deps = b.same_deps ∙ a.same_deps;
}

pub transition_node-SameKey :
    (env : Env) (to : NodeState) (node : NodeSnapshot) (w : World)
    → SameKey node (transition_node env to node w).node
transition_node-SameKey env to node w =
    let e = transition_node-SameNode env to node w in
    record { same_id = ap (λ n. n.id) e; same_deps = ap (λ n. n.deps) e }
