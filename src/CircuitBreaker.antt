-- ===== src/CircuitBreaker.antt =====
-- The circuit breaker of engine/core/circuit_breaker.py over the table `provider_circuit_breakers`
-- (schema_v8.sql). A method that writes does so in one `begin_immediate` transaction, so it is one
-- step; `_try_half_open` reads before its transaction, and `between` is what others write then.
-- Times are counted in microseconds.
pub mod Row
pub mod Recovery
mod Examples
use v10_engine.Prelude.{
  ℕ, zero, suc, ◌+◌, ◌≤◌, Bool, true, false, not, ◌&&◌, ◌||◌, Option, none, some, List, [], ◌∷◌,
  ltb, leb, ◌==◌, if◌then◌else◌,
}

pub data CbState : Type 0 where
  closed open_state half_open : CbState

pub record CbRow : Type 0 where
  pub provider_name : ℕ
  pub state : CbState
  pub failure_count : ℕ
  pub success_count : ℕ
  pub opened_at : Option ℕ
  pub last_attempt_at : Option ℕ
  pub version : ℕ

abbrev pub failure_threshold : ℕ
failure_threshold = 5

abbrev pub recovery_timeout : ℕ
recovery_timeout = 60000000

abbrev pub half_open_max_calls : ℕ
half_open_max_calls = 3

abbrev pub is_closed : CbState → Bool
is_closed closed = true
is_closed _ = false

abbrev pub is_open : CbState → Bool
is_open open_state = true
is_open _ = false

abbrev pub is_half_open : CbState → Bool
is_half_open half_open = true
is_half_open _ = false

abbrev pub Breakers : Type 0
Breakers = List CbRow

-- SELECT … WHERE provider_name=?
unfoldable pub find_breaker : ℕ → Breakers → Option CbRow
find_breaker p [] = none
find_breaker p (r ∷ rows) = if r.provider_name == p then some r else find_breaker p rows

-- UPDATE … SET f WHERE provider_name=? AND q
unfoldable pub write_breaker : ℕ → (CbRow → Bool) → (CbRow → CbRow) → Breakers → Breakers
write_breaker p q f [] = []
write_breaker p q f (r ∷ rows) =
    if r.provider_name == p then (if q r then f r else r) ∷ rows else r ∷ write_breaker p q f rows

unfoldable pub breakers_affected : ℕ → (CbRow → Bool) → Breakers → ℕ
breakers_affected p q [] = 0
breakers_affected p q (r ∷ rows) =
    if r.provider_name == p then (if q r then 1 else 0) else breakers_affected p q rows

abbrev pub row_at : ℕ → CbRow → Bool
row_at v r = r.version == v

-- `_get_state`: a provider without a row counts as CLOSED.
abbrev pub state_or_closed : Option CbRow → CbState
state_or_closed none = closed
state_or_closed (some r) = r.state

unfoldable pub get_state : ℕ → Breakers → CbState
unfolding find_breaker
get_state p t = state_or_closed (find_breaker p t)

-- The row that a success leaves, by the state that was read.
unfoldable pub success_row : CbRow → CbRow
success_row r =
    if is_half_open r.state
    then (if leb half_open_max_calls (suc r.success_count)
        then record r {
          state = closed;
          failure_count = 0;
          success_count = 0;
          opened_at = none;
          version = suc r.version;
        }
        else record r { success_count = suc r.success_count; version = suc r.version })
    else if is_closed r.state
    then record r { failure_count = 0; success_count = 0; version = suc r.version }
    else r

abbrev pub record_success_of : ℕ → Option CbRow → Breakers → Breakers
record_success_of p none t = t
record_success_of p (some row) t = write_breaker p (row_at row.version) success_row t

unfoldable pub record_success : ℕ → Breakers → Breakers
unfolding find_breaker write_breaker success_row
record_success p t = record_success_of p (find_breaker p t) t

-- The row that a failure leaves. `at` is the time of the call.
unfoldable pub failure_row : ℕ → CbRow → CbRow
failure_row at r =
    let new_count = suc r.failure_count in
    let opens = leb failure_threshold new_count && is_closed r.state in
    record r {
      failure_count = new_count;
      state = if opens then open_state else r.state;
      opened_at = if opens then some at else r.opened_at;
      last_attempt_at = some at;
      success_count = 0;
      version = suc r.version;
    }

-- The new table with the state that is returned, or `none` for the ConcurrentUpdateError, which
-- rolls the transaction back.
abbrev pub record_failure_of : ℕ → ℕ → Option CbRow → Breakers → Breakers × Option CbState
record_failure_of at p none t = (t, some closed)
record_failure_of at p (some row) t =
    if breakers_affected p (row_at row.version) t == 0
    then (t, none)
    else (write_breaker p (row_at row.version) (failure_row at) t, some (failure_row at row).state)

unfoldable pub record_failure : ℕ → ℕ → Breakers → Breakers × Option CbState
unfolding find_breaker write_breaker breakers_affected failure_row
record_failure at p t = record_failure_of at p (find_breaker p t) t

abbrev pub half_open_row : CbRow → CbRow
half_open_row r = record r { state = half_open; success_count = 0; version = suc r.version }

-- The tests of `_try_half_open` on the row that it read.
abbrev pub may_half_open : ℕ → Option CbRow → Bool
may_half_open at none = false
may_half_open at (some r) =
    is_open r.state
    && elim r.opened_at [ none ↦ false | some opened ↦ leb (opened + recovery_timeout) at ]

unfoldable pub try_half_open : (Breakers → Breakers) → ℕ → ℕ → Breakers → Breakers
unfolding find_breaker write_breaker
try_half_open between at p t =
    if may_half_open at (find_breaker p t)
    then write_breaker p (λ r. is_open r.state) half_open_row (between t)
    else t

-- `check`: the table that it leaves, and whether it raises CircuitBreakerOpenError.
unfoldable pub check : (Breakers → Breakers) → ℕ → ℕ → Breakers → Breakers × Bool
unfolding get_state
check between at p t =
    if is_open (get_state p t)
    then (let t' = try_half_open between at p t in (t', is_open (get_state p t')))
    else (t, false)
