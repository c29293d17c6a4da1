-- ===== src/CircuitBreaker/Examples.antt =====
-- Examples for engine/core/circuit_breaker.py.
use v10_engine.Prelude.{ℕ, ◌≡◌, refl, some, none, [], ◌∷◌, arith}
use v10_engine.CircuitBreaker.{CbRow, CbState, closed, open_state, Breakers, find_breaker}
use v10_engine.CircuitBreaker.Recovery.{
  IsHealthy, run, run-IsHealthy, failure, success, checked, failures, recovers,
}

abbrev breaker : CbState → ℕ → CbRow
breaker state failures = record {
  provider_name = 2;
  state = state;
  failure_count = failures;
  success_count = 0;
  opened_at = some 100;
  last_attempt_at = none;
  version = 6;
}

abbrev table : CbState → ℕ → Breakers
table state failures = breaker state failures ∷ []

run-IsHealthy_example :
    (r : CbRow) × (find_breaker 2
        (run 2 (failure 1 ∷ success ∷ checked 9 ∷ failure 3 ∷ []) (table closed 4))
      ≡ some r)
    × IsHealthy r
unfolding find_breaker
run-IsHealthy_example =
    run-IsHealthy 2 (failure 1 ∷ success ∷ checked 9 ∷ failure 3 ∷ []) (table closed 4)
      (breaker closed 4) refl (ground arith)

recovers_example :
    (r : CbRow) × (find_breaker 2
        (run 2 (checked 60000100 ∷ success ∷ success ∷ success ∷ []) (table open_state 5))
      ≡ some r)
    × (r.state ≡ closed)
    × (r.failure_count ≡ 0)
    × (r.success_count ≡ 0)
    × (r.opened_at ≡ none)
unfolding find_breaker
recovers_example =
    recovers 2 100 60000100 (table open_state 5) (breaker open_state 5) refl refl refl (omega arith)
