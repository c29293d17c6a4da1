-- ===== src/Store/Protocol.antt =====
-- The protocol of the optimistic lock on `nodes`: which statements keep to it.
use v10_engine.Prelude.{
  ℕ, suc, ◌≡◌, refl, inl, inr, Bool, Option, none, some, List, arith, ◌==◌, Bool-cases,
}
use v10_engine.Store.{NodeRow, select, write_row, write_where}
use v10_engine.Store.Laws.{updated, select-write_row, select-write_where}
use v10_engine.Store.World.{World, Env, yield_to, Follows, Respects}

pub Follows-refl : (o : Option NodeRow) → Follows o o
Follows-refl none = tt
Follows-refl (some r) = inl (refl, refl)

pub Follows-trans : (o p q : Option NodeRow) → Follows o p → Follows p q → Follows o q
Follows-trans none none q a b = b
Follows-trans none (some x) q a b = absurd a
Follows-trans (some x) none none a b = tt
Follows-trans (some x) none (some z) a b = absurd b
Follows-trans (some x) (some y) none a b = tt
Follows-trans (some x) (some y) (some z) (inl a) (inl b) = ground arith
Follows-trans (some x) (some y) (some z) (inl a) (inr b) = inr (omega (arith, a.0))
Follows-trans (some x) (some y) (some z) (inr a) (inl b) = inr (omega (arith, b.0))
Follows-trans (some x) (some y) (some z) (inr a) (inr b) = inr (omega arith)

-- A statement that raises the version of each row that it meets.
abbrev pub Raises : (NodeRow → NodeRow) → Type 0
Raises f = (r : NodeRow) → (f r).version ≡ suc r.version

abbrev pub KeepsKey : (NodeRow → NodeRow) → Type 0
KeepsKey f = (r : NodeRow) → (f r).id ≡ r.id

updated-Follows :
    (q : NodeRow → Bool) (f : NodeRow → NodeRow) (o : Option NodeRow)
    → Raises f
    → Follows o (updated q f o)
updated-Follows q f none raises = tt
updated-Follows q f (some r) raises = elim (Bool-cases (q r)) [
  | inl met ↦ rw met (inr (omega (arith, raises r)))
  | inr left ↦ rw left (inl (refl, refl))
]

pub write_row-Follows :
    (i : ℕ) (q : NodeRow → Bool) (f : NodeRow → NodeRow) (rows : List NodeRow)
    → KeepsKey f
    → Raises f
    → (j : ℕ) → Follows (select j rows) (select j (write_row i q f rows))
write_row-Follows i q f rows keeps raises j =
    rw (select-write_row i j q f rows keeps) (elim (Bool-cases (i == j)) [
      | inl same ↦
          let e : i ≡ j = ground arith in
          rw (same, ← e) (updated-Follows q f (select i rows) raises)
      | inr other ↦ rw other (Follows-refl (select j rows))
    ])

pub write_where-Follows :
    (q : NodeRow → Bool) (f : NodeRow → NodeRow) (rows : List NodeRow)
    → KeepsKey f
    → Raises f
    → (j : ℕ) → Follows (select j rows) (select j (write_where q f rows))
write_where-Follows q f rows keeps raises j =
    rw (select-write_where j q f rows keeps) (updated-Follows q f (select j rows) raises)

pub yield_to-Follows :
    (env : Env) (w : World)
    → Respects env
    → (j : ℕ) → Follows (select j w.nodes) (select j (yield_to env w).nodes)
unfolding yield_to
yield_to-Follows env w respects j = respects.each w.awaits w.db j
