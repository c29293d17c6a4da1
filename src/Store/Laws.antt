-- ===== src/Store/Laws.antt =====
-- What a statement by primary key leaves in the tables of engine/db/adapter.py's database.
use v10_engine.Prelude.{
  ℕ, ◌≡◌, ◌≢◌, ==_refl, ◌∙◌, refl, Bool, Option, none, some, List, [], ◌∷◌, ◌==◌, if◌then◌else◌,
  arith,
}
use v10_engine.Store.{NodeRow, select, write_row, write_where, rows_affected}

-- The row that an UPDATE leaves behind where it met `o`.
abbrev pub updated : (NodeRow → Bool) → (NodeRow → NodeRow) → Option NodeRow → Option NodeRow
updated q f none = none
updated q f (some r) = some (if q r then f r else r)

abbrev pub hits : (NodeRow → Bool) → Option NodeRow → ℕ
hits q none = 0
hits q (some r) = if q r then 1 else 0

pub select-write_row :
    (i j : ℕ) (q : NodeRow → Bool) (f : NodeRow → NodeRow) (rows : List NodeRow)
    → ((r : NodeRow) → (f r).id ≡ r.id)
    → select j (write_row i q f rows)
      ≡ (if i == j then updated q f (select i rows) else select j rows)
unfolding select write_row
select-write_row i j q f [] keeps = ground arith
select-write_row i j q f (r ∷ rows) keeps =
    ground (arith, select-write_row i j q f rows keeps, keeps r)

pub rows_affected-eq-hits :
    (i : ℕ) (q : NodeRow → Bool) (rows : List NodeRow)
    → rows_affected i q rows ≡ hits q (select i rows)
unfolding select rows_affected
rows_affected-eq-hits i q [] = refl
rows_affected-eq-hits i q (r ∷ rows) = ground (arith, rows_affected-eq-hits i q rows)

pub id-select : (i : ℕ) (rows : List NodeRow) {r : NodeRow} → select i rows ≡ some r → r.id ≡ i
unfolding select
id-select i [] h = ground arith
id-select i (x ∷ rows) {r} h = ground (arith, id-select i rows {r = r})

-- A statement whose condition fails at its row changes nothing.
pub write_row_miss :
    (i : ℕ) (q : NodeRow → Bool) (f : NodeRow → NodeRow) (rows : List NodeRow)
    → rows_affected i q rows ≡ 0
    → write_row i q f rows ≡ rows
unfolding write_row rows_affected
write_row_miss i q f [] h = refl
write_row_miss i q f (r ∷ rows) h = ground (arith, write_row_miss i q f rows)

unfoldable pub ids : List NodeRow → List ℕ
ids [] = []
ids (r ∷ rows) = r.id ∷ ids rows

-- An UPDATE that keeps the key inserts, deletes and moves no row.
pub ids-write_row :
    (i : ℕ) (q : NodeRow → Bool) (f : NodeRow → NodeRow) (rows : List NodeRow)
    → ((r : NodeRow) → (f r).id ≡ r.id)
    → ids (write_row i q f rows) ≡ ids rows
unfolding ids write_row
ids-write_row i q f [] keeps = refl
ids-write_row i q f (r ∷ rows) keeps = ground (arith, ids-write_row i q f rows keeps, keeps r)

pub select-write_row_self :
    (i : ℕ) (q : NodeRow → Bool) (f : NodeRow → NodeRow) (rows : List NodeRow)
    → ((r : NodeRow) → (f r).id ≡ r.id)
    → select i (write_row i q f rows) ≡ updated q f (select i rows)
select-write_row_self i q f rows keeps = rw (select-write_row i i q f rows keeps, ==_refl i) refl

pub select-write_row_other :
    (i j : ℕ) (q : NodeRow → Bool) (f : NodeRow → NodeRow) (rows : List NodeRow)
    → ((r : NodeRow) → (f r).id ≡ r.id)
    → i ≢ j
    → select j (write_row i q f rows) ≡ select j rows
select-write_row_other i j q f rows keeps ne = select-write_row i j q f rows keeps ∙ ground arith

pub select-write_where :
    (j : ℕ) (q : NodeRow → Bool) (f : NodeRow → NodeRow) (rows : List NodeRow)
    → ((r : NodeRow) → (f r).id ≡ r.id)
    → select j (write_where q f rows) ≡ updated q f (select j rows)
unfolding select write_where
select-write_where j q f [] keeps = refl
select-write_where j q f (r ∷ rows) keeps =
    ground (arith, select-write_where j q f rows keeps, keeps r)
