-- ===== src/CircuitBreaker/Row.antt =====
-- The methods of engine/core/circuit_breaker.py seen on the row of one provider.
use v10_engine.Prelude.{
  ℕ, ◌≡◌, refl, ◌∙◌, ap, Bool, Option, none, some, [], ◌∷◌, arith, ==_refl, if◌then◌else◌,
}
use v10_engine.CircuitBreaker.{
  CbRow, Breakers, find_breaker, write_breaker, breakers_affected, row_at, success_row, failure_row,
  record_success, record_success_of, record_failure, record_failure_of,
}

abbrev pub rewritten : (CbRow → Bool) → (CbRow → CbRow) → Option CbRow → Option CbRow
rewritten q f none = none
rewritten q f (some r) = some (if q r then f r else r)

pub find_breaker-write_breaker :
    (p : ℕ) (q : CbRow → Bool) (f : CbRow → CbRow) (t : Breakers)
    → ((r : CbRow) → (f r).provider_name ≡ r.provider_name)
    → find_breaker p (write_breaker p q f t) ≡ rewritten q f (find_breaker p t)
unfolding find_breaker write_breaker
find_breaker-write_breaker p q f [] keeps = refl
find_breaker-write_breaker p q f (r ∷ t) keeps =
    ground (arith, find_breaker-write_breaker p q f t keeps, keeps r)

affected_found :
    (p : ℕ) (t : Breakers) (r : CbRow)
    → find_breaker p t ≡ some r
    → breakers_affected p (row_at r.version) t ≡ 1
unfolding find_breaker breakers_affected
affected_found p [] r h = ground arith
affected_found p (x ∷ t) r h = ground (arith, affected_found p t r)

success_row-name : (r : CbRow) → (success_row r).provider_name ≡ r.provider_name
unfolding success_row
success_row-name r = ground arith

failure_row-name : (at : ℕ) (r : CbRow) → (failure_row at r).provider_name ≡ r.provider_name
unfolding failure_row
failure_row-name at r = refl

module _ (p : ℕ) (t : Breakers) (r : CbRow) (found : find_breaker p t ≡ some r) where
  pub find-record_success : find_breaker p (record_success p t) ≡ some (success_row r)
  unfolding record_success
  find-record_success =
      rw (found, record_success_of)
        (find_breaker-write_breaker p (row_at r.version) success_row t success_row-name
          ∙ ap (rewritten (row_at r.version) success_row) found
          ∙ ground (arith, ==_refl r.version))

  -- In its transaction a failure always finds the version that it read, so nothing is raised.
  pub find-record_failure :
      (at : ℕ)
      → (find_breaker p (record_failure at p t).0 ≡ some (failure_row at r))
        × ((record_failure at p t).1 ≡ some (failure_row at r).state)
  unfolding record_failure
  find-record_failure at =
      rw (found, record_failure_of, affected_found p t r found)
        (
          find_breaker-write_breaker p (row_at r.version) (failure_row at) t (failure_row-name at)
              ∙ ap (rewritten (row_at r.version) (failure_row at)) found
              ∙ ground (arith, ==_refl r.version),
          refl,
        )
