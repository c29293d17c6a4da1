-- ===== src/Advancer/Transition/Safety.antt =====
-- `_transition_node` of engine/core/dag_advancer.py among other tasks that write the same rows.
use v10_engine.Prelude.{
  ℕ, zero, suc, ◌≤◌, ◌≡◌, refl, sym, ◌∙◌, ◌⊎◌, inl, inr, true, Option, none, some, List, arith,
  ◌==◌, ==_refl, Option-cases, Bool-cases,
}
use v10_engine.StateMachine.{NodeState, state_eq, is_valid, transition}
use v10_engine.Store.{NodeRow, at_version, select, write_row, rows_affected}
use v10_engine.Store.Laws.{updated, hits, select-write_row, rows_affected-eq-hits, write_row_miss}
use v10_engine.Store.World.{World, Env, yield_to, now, set_nodes, Follows, Respects}
use v10_engine.Advancer.{NodeSnapshot}
use v10_engine.Advancer.Transition.{
  Moved, set_state, sync, after_conflict, after_execute, attempts, transition_node,
}

-- The snapshot is not ahead of the row, and is right about the state where the versions agree.
abbrev pub Agrees : NodeSnapshot → Option NodeRow → Type 0
Agrees node none = Unit
Agrees node (some r) =
    (node.version ≤ r.version) × (r.version ≡ node.version → r.state ≡ node.state)

abbrev pub IsCoherent : NodeSnapshot → World → Type 0
IsCoherent node w = Agrees node (select node.id w.nodes)

-- A row keeps its state and version, or takes one transition of the table and a new version.
abbrev pub Steps : Option NodeRow → Option NodeRow → Type 0
Steps none none = Unit
Steps none (some _) = ⊥
Steps (some _) none = ⊥
Steps (some r) (some r') =
    (r'.state ≡ r.state) × (r'.version ≡ r.version)
    ⊎ ((is_valid r.state r'.state ≡ true) × (r'.version ≡ suc r.version))

-- What a run is made of: turns of the other tasks, writes that take allowed transitions, and what
-- leaves the table of nodes alone.
pub data Run (env : Env) : World → World → Type 0 where
  stop : {w : World} → Run env w w
  turn : {w v : World} → Run env (yield_to env w) v → Run env w v
  aside : {w v : World} (u : World) → u.nodes ≡ w.nodes → Run env u v → Run env w v
  write :
      {w v : World} (rows : List NodeRow)
      → ((i : ℕ) → Steps (select i w.nodes) (select i rows))
      → Run env (set_nodes w rows) v
      → Run env w v

pub Agrees-Follows :
    (node : NodeSnapshot) (o o' : Option NodeRow) → Agrees node o → Follows o o' → Agrees node o'
Agrees-Follows node none none a f = tt
Agrees-Follows node none (some r) a f = absurd f
Agrees-Follows node (some r) none a f = tt
Agrees-Follows node (some r) (some r') a (inl f) = (omega arith, λ e. ground (arith, a.1))
Agrees-Follows node (some r) (some r') a (inr f) = (omega arith, λ e. absurd (omega arith))

pub Steps-refl : (o : Option NodeRow) → Steps o o
Steps-refl none = tt
Steps-refl (some r) = inl (refl, refl)

module _ (node : NodeSnapshot) (to : NodeState) (at : ℕ) where
  Steps-updated :
      (o : Option NodeRow)
      → Agrees node o
      → is_valid node.state to ≡ true
      → Steps o (updated (at_version node.version) (set_state to at) o)
  Steps-updated none a v = tt
  Steps-updated (some r) a v = elim (Bool-cases (r.version == node.version)) [
    | inl same ↦ rw same (inr (ground (arith, a.1), refl))
    | inr other ↦ rw other (inl (refl, refl))
  ]

  Agrees-updated :
      (o : Option NodeRow) {n : ℕ}
      → hits (at_version node.version) o ≡ suc n
      → Agrees
          (record node { state = to; version = suc node.version })
          (updated (at_version node.version) (set_state to at) o)
  Agrees-updated none h = tt
  Agrees-updated (some r) h = elim (Bool-cases (r.version == node.version)) [
    | inl same ↦ rw same (ground arith, λ e. refl)
    | inr other ↦ absurd (ground arith)
  ]

  cas-Steps :
      (rows : List NodeRow)
      → Agrees node (select node.id rows)
      → is_valid node.state to ≡ true
      → (i : ℕ)
      → Steps
          (select i rows)
          (select i (write_row node.id (at_version node.version) (set_state to at) rows))
  cas-Steps rows a v i =
      rw (select-write_row node.id i (at_version node.version) (set_state to at) rows (λ r. refl))
        (elim (Bool-cases (node.id == i)) [
          | inl same ↦
              let e : node.id ≡ i = ground arith in
              rw (same, ← e) (Steps-updated (select node.id rows) a v)
          | inr other ↦ rw other (Steps-refl (select i rows))
        ])

valid_of_transition : (s t : NodeState) (i : ℕ) → transition s t i ≡ none → is_valid s t ≡ true
unfolding transition
valid_of_transition s t i h = ground arith

-- A call that starts in `w` has run by turns and allowed writes, and leaves a coherent snapshot.
abbrev pub Safe : Env → World → Moved → Type 0
Safe env w m = Run env w m.world × IsCoherent m.node m.world

module _ (env : Env) (respects : Respects env) (to : NodeState) where
  turn-IsCoherent :
      (node : NodeSnapshot) (w : World) → IsCoherent node w → IsCoherent node (yield_to env w)
  unfolding yield_to
  turn-IsCoherent node w c = Agrees-Follows node _ _ c (respects.each w.awaits w.db node.id)

  after_conflict-Safe :
      (node : NodeSnapshot) (w : World) (o : Option NodeRow)
      → select node.id w.nodes ≡ o
      → (retry : NodeSnapshot → World → Moved)
      → ((n : NodeSnapshot) (v : World) → IsCoherent n v → Safe env v (retry n v))
      → IsCoherent node w
      → Safe env w (after_conflict env node to w o retry)
  unfolding after_conflict
  after_conflict-Safe node w none e retry ih c = (stop, c)
  after_conflict-Safe node w (some fresh) e retry ih c =
      let c' : IsCoherent (sync node fresh) w = rw e (omega arith, λ _. refl) in
      elim (Bool-cases (state_eq fresh.state to)) [
        | inl there ↦ rw there (stop, c')
        | inr elsewhere ↦ rw elsewhere (elim (Bool-cases (is_valid fresh.state to)) [
          | inl allowed ↦
              let (r, k) =
                ih (sync node fresh) (yield_to env w) (turn-IsCoherent (sync node fresh) w c') in
              rw allowed (turn r, k)
          | inr refused ↦ rw refused (stop, c')
        ])
      ]

  after_execute-Safe :
      (node : NodeSnapshot) (w : World) (at n : ℕ)
      → rows_affected node.id (at_version node.version) w.nodes ≡ n
      → is_valid node.state to ≡ true
      → (retry : NodeSnapshot → World → Moved)
      → ((m : NodeSnapshot) (v : World) → IsCoherent m v → Safe env v (retry m v))
      → IsCoherent node w
      → Safe env w (
          after_execute env node to
            (set_nodes w (write_row node.id (at_version node.version) (set_state to at) w.nodes))
            n
            retry)
  unfolding after_execute
  after_execute-Safe node w at zero e v retry ih c =
      rw (write_row_miss node.id (at_version node.version) (set_state to at) w.nodes e) (
        let (r, k) =
          after_conflict-Safe node (yield_to env w) (select node.id (yield_to env w).nodes) refl
            retry ih (turn-IsCoherent node w c) in
        (turn r, k))
  after_execute-Safe node w at (suc n) e v retry ih c = (
    write (write_row node.id (at_version node.version) (set_state to at) w.nodes)
        (cas-Steps node to at w.nodes c v) stop,
    rw
        (
          select-write_row node.id node.id (at_version node.version) (set_state to at) w.nodes
              (λ r. refl),
          ==_refl node.id,
        )
        (Agrees-updated node to at (select node.id w.nodes)
          (sym (rows_affected-eq-hits node.id (at_version node.version) w.nodes) ∙ e)),
  )

  attempts-Safe :
      (left : ℕ) (node : NodeSnapshot) (w : World)
      → IsCoherent node w
      → Safe env w (attempts left env to node w)
  unfolding attempts
  attempts-Safe zero node w c = (stop, c)
  attempts-Safe (suc left) node w c = elim (Option-cases (transition node.state to node.id)) [
    | inr (x, e) ↦ rw (e, attempts) (stop, c)
    | inl e ↦
        rw (e, attempts)
          (let (r, k) =
              after_execute-Safe node (yield_to env w) (now env w) _ refl
                (valid_of_transition node.state to node.id e) (attempts left env to)
                (attempts-Safe left) (turn-IsCoherent node w c) in
            (turn r, k))
  ]

-- Whatever the other tasks do by the protocol of the lock, `_transition_node` makes only allowed
-- transitions of the rows as they are when it writes, and leaves its snapshot coherent.
pub transition_node-Safe :
    (env : Env) (to : NodeState) (node : NodeSnapshot) (w : World)
    → Respects env
    → IsCoherent node w
    → Safe env w (transition_node env to node w)
unfolding transition_node
transition_node-Safe env to node w respects c = attempts-Safe env respects to 3 node w c
