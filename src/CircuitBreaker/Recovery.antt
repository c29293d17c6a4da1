-- ===== src/CircuitBreaker/Recovery.antt =====
-- What the circuit breaker of engine/core/circuit_breaker.py does over sequences of calls.
use v10_engine.Prelude.{
  ℕ, suc, ◌+◌, ◌≤◌, ◌<◌, ◌≡◌, refl, ◌∙◌, ap, Bool, true, false, not, ◌&&◌, Option, none, some, List,
  [], ◌∷◌, arith, leb, if◌then◌else◌, Bool-cases, inl, inr, length,
}
use v10_engine.CircuitBreaker.{
  CbRow, closed, open_state, half_open, Breakers, find_breaker, success_row, failure_row,
  half_open_row, record_success, record_failure, try_half_open, may_half_open, check, get_state,
  is_open, is_closed, failure_threshold, half_open_max_calls, recovery_timeout,
}
use v10_engine.CircuitBreaker.Row.{
  find-record_success, find-record_failure, find_breaker-write_breaker, rewritten,
}

-- The calls for one provider, `failure` and `checked` with their times.
pub data Call : Type 0 where
  success : Call
  failure : ℕ → Call
  checked : ℕ → Call

abbrev pub nothing_between : Breakers → Breakers
nothing_between t = t

unfoldable pub call : ℕ → Call → Breakers → Breakers
unfolding record_success record_failure check
call p success t = record_success p t
call p (failure at) t = (record_failure at p t).0
call p (checked at) t = (check nothing_between at p t).0

unfoldable pub run : ℕ → List Call → Breakers → Breakers
unfolding call
run p [] t = t
run p (c ∷ calls) t = run p calls (call p c t)

abbrev pub is_known : Option ℕ → Bool
is_known none = false
is_known (some at) = true

pub record IsHealthy (r : CbRow) : Type 0 where
  pub below_threshold : r.state ≡ closed → r.failure_count < failure_threshold
  pub since : r.state ≡ open_state → is_known r.opened_at ≡ true
  pub below_recovery : r.state ≡ half_open → r.success_count < half_open_max_calls

success_row-IsHealthy : (r : CbRow) → IsHealthy r → IsHealthy (success_row r)
unfolding success_row
success_row-IsHealthy r h = ground arith

failure_row-IsHealthy : (at : ℕ) (r : CbRow) → IsHealthy r → IsHealthy (failure_row at r)
unfolding failure_row
failure_row-IsHealthy at r h = ground arith

-- The row that a check leaves.
abbrev pub checked_row : ℕ → CbRow → CbRow
checked_row at r = if may_half_open at (some r) then half_open_row r else r

checked_row-IsHealthy : (at : ℕ) (r : CbRow) → IsHealthy r → IsHealthy (checked_row at r)
checked_row-IsHealthy at r h = ground arith

module _ (p : ℕ) (t : Breakers) (r : CbRow) (found : find_breaker p t ≡ some r) where
  find-try_half_open :
      (at : ℕ) → find_breaker p (try_half_open nothing_between at p t) ≡ some (checked_row at r)
  unfolding try_half_open
  find-try_half_open at = elim (Bool-cases (may_half_open at (some r))) [
    | inr e ↦ rw (found, e) found
    | inl e ↦
        rw (found, e)
          (find_breaker-write_breaker p (λ x. is_open x.state) half_open_row t (λ x. refl)
            ∙ ap (rewritten (λ x. is_open x.state) half_open_row) found
            ∙ ground arith)
  ]

  -- A check raises exactly while the breaker is OPEN and its recovery time has not passed, and it
  -- leaves an OPEN breaker half open from then on.
  pub check_exact :
      (at : ℕ)
      → ((check nothing_between at p t).1 ≡ (is_open r.state && not (may_half_open at (some r))))
        × (find_breaker p (check nothing_between at p t).0 ≡ some (checked_row at r))
  unfolding check get_state
  check_exact at = elim (Bool-cases (is_open r.state)) [
    | inl e ↦ rw (found, e, find-try_half_open at) (ground arith, ground arith)
    | inr e ↦ rw (found, e) (refl, found ∙ ground arith)
  ]

-- What a call leaves of the provider's row.
unfoldable pub row_after : Call → CbRow → CbRow
unfolding success_row failure_row
row_after success r = success_row r
row_after (failure at) r = failure_row at r
row_after (checked at) r = checked_row at r

find-call :
    (p : ℕ) (c : Call) (t : Breakers) (r : CbRow)
    → find_breaker p t ≡ some r
    → find_breaker p (call p c t) ≡ some (row_after c r)
unfolding call row_after
find-call p success t r found = find-record_success p t r found
find-call p (failure at) t r found = (find-record_failure p t r found at).0
find-call p (checked at) t r found = (check_exact p t r found at).1

row_after-IsHealthy : (c : Call) (r : CbRow) → IsHealthy r → IsHealthy (row_after c r)
unfolding row_after
row_after-IsHealthy success r h = success_row-IsHealthy r h
row_after-IsHealthy (failure at) r h = failure_row-IsHealthy at r h
row_after-IsHealthy (checked at) r h = checked_row-IsHealthy at r h

unfoldable pub rows_after : List Call → CbRow → CbRow
unfolding row_after
rows_after [] r = r
rows_after (c ∷ calls) r = rows_after calls (row_after c r)

pub find-run :
    (p : ℕ) (calls : List Call) (t : Breakers) (r : CbRow)
    → find_breaker p t ≡ some r
    → find_breaker p (run p calls t) ≡ some (rows_after calls r)
unfolding run rows_after
find-run p [] t r found = found
find-run p (c ∷ calls) t r found =
    find-run p calls (call p c t) (row_after c r) (find-call p c t r found)

rows_after-IsHealthy :
    (calls : List Call) (r : CbRow) → IsHealthy r → IsHealthy (rows_after calls r)
unfolding rows_after
rows_after-IsHealthy [] r h = h
rows_after-IsHealthy (c ∷ calls) r h =
    rows_after-IsHealthy calls (row_after c r) (row_after-IsHealthy c r h)

-- Whatever the calls, a healthy row stays healthy: below the threshold while CLOSED, with its
-- opening time while OPEN, and below the number of successes for recovery while HALF_OPEN.
pub run-IsHealthy :
    (p : ℕ) (calls : List Call) (t : Breakers) (r : CbRow)
    → find_breaker p t ≡ some r
    → IsHealthy r
    → (r' : CbRow) × (find_breaker p (run p calls t) ≡ some r') × IsHealthy r'
run-IsHealthy p calls t r found h =
    (rows_after calls r, find-run p calls t r found, rows_after-IsHealthy calls r h)

unfoldable pub failures : List ℕ → List Call
failures [] = []
failures (at ∷ ats) = failure at ∷ failures ats

-- Failures alone change the state of a CLOSED breaker only.
failing_keeps :
    (ats : List ℕ) (r : CbRow)
    → is_closed r.state ≡ false
    → (rows_after (failures ats) r).state ≡ r.state
unfolding failures rows_after
failing_keeps [] r c = refl
failing_keeps (at ∷ ats) r c = failing_keeps ats (failure_row at r) (ground arith) ∙ ground arith

failing_from_closed :
    (ats : List ℕ) (r : CbRow)
    → is_closed r.state ≡ true
    → r.failure_count < failure_threshold
    → is_open (rows_after (failures ats) r).state
      ≡ leb failure_threshold (r.failure_count + length ats)
unfolding failures rows_after
failing_from_closed [] r c low = ground arith
failing_from_closed (at ∷ ats) r c low =
    elim (Bool-cases (leb failure_threshold (suc r.failure_count))) [
      | inl opens ↦ ground (arith, failing_keeps ats (failure_row at r))
      | inr stays ↦ ground (arith, failing_from_closed ats (failure_row at r))
    ]

-- From a CLOSED breaker, consecutive failures open it exactly when they bring the count to the
-- threshold.
pub opens_at_threshold :
    (p : ℕ) (ats : List ℕ) (t : Breakers) (r : CbRow)
    → find_breaker p t ≡ some r
    → r.state ≡ closed
    → r.failure_count < failure_threshold
    → is_open (get_state p (run p (failures ats) t))
      ≡ leb failure_threshold (r.failure_count + length ats)
unfolding get_state
opens_at_threshold p ats t r found c low =
    rw (find-run p (failures ats) t r found) (failing_from_closed ats r (ground arith) low)

-- A HALF_OPEN breaker is not opened again by failures, however many, and lets every call through.
pub half_open_never_reopens :
    (p : ℕ) (ats : List ℕ) (at : ℕ) (t : Breakers) (r : CbRow)
    → find_breaker p t ≡ some r
    → r.state ≡ half_open
    → (get_state p (run p (failures ats) t) ≡ half_open)
      × ((check nothing_between at p (run p (failures ats) t)).1 ≡ false)
unfolding get_state
half_open_never_reopens p ats at t r found h =
    let found' = find-run p (failures ats) t r found in
    let same : (rows_after (failures ats) r).state ≡ half_open =
      failing_keeps ats r (ground arith) ∙ h in
    (
      rw found' same,
      (check_exact p (run p (failures ats) t) (rows_after (failures ats) r) found' at).0
          ∙ ground arith,
    )

-- Sixty seconds after it opened, one check and three successes close a breaker, and its counts
-- start again from nothing.
pub recovers :
    (p : ℕ) (opened at : ℕ) (t : Breakers) (r : CbRow)
    → find_breaker p t ≡ some r
    → r.state ≡ open_state
    → r.opened_at ≡ some opened
    → opened + recovery_timeout ≤ at
    → (r' : CbRow) × (find_breaker p (run p (checked at ∷ success ∷ success ∷ success ∷ []) t)
        ≡ some r')
      × (r'.state ≡ closed)
      × (r'.failure_count ≡ 0)
      × (r'.success_count ≡ 0)
      × (r'.opened_at ≡ none)
unfolding rows_after
recovers p opened at t r found o since late =
    let calls = checked at ∷ success ∷ success ∷ success ∷ [] in
    (
      rows_after calls r,
      find-run p calls t r found,
      ground arith,
      ground arith,
      ground arith,
      ground arith,
    )
