-- ===== src/Server/CircuitBreaker/History.antt =====
-- What a circuit breaker answers, read off the calls that it has seen.
use fs.Base.{
  ℕ, ◌+◌, ◌-◌, ◌^◌, ◌≤◌, ◌<◌, ◌≡◌, refl, Bool, false, not, ◌&&◌, List, [], ◌∷◌, arith, ltb, leb,
  if◌then◌else◌, nat_eq, length, text_eq,
}
use fs.Server.CircuitBreaker.{
  CircuitBreaker, new, state, recovered, allow_request, record_success, record_failure, closed,
  open_circuit,
}

pub data Call : Type 0 where
  success : Call
  failure : ℕ → Call

-- The breaker after the calls, the newest first.
unfoldable pub run : ℕ → ℕ → List Call → CircuitBreaker
run threshold timeout [] = new threshold timeout
run threshold timeout (success ∷ calls) = record_success (run threshold timeout calls)
run threshold timeout (failure at ∷ calls) = record_failure at (run threshold timeout calls)

-- How many calls failed since the last success.
unfoldable pub failures : List Call → ℕ
failures [] = 0
failures (success ∷ calls) = 0
failures (failure at ∷ calls) = failures calls + 1

-- The requests are held back: the newest call failed less than `timeout` ago, and with it at least
-- `threshold` calls in a row.
unfoldable pub held_back : ℕ → ℕ → ℕ → List Call → Bool
held_back threshold timeout now [] = false
held_back threshold timeout now (success ∷ calls) = false
held_back threshold timeout now (failure at ∷ calls) =
    leb threshold (failures calls + 1) && ltb (now - at) timeout

failures-le : (calls : List Call) → failures calls ≤ length calls
unfolding failures
failures-le [] = omega arith
failures-le (success ∷ calls) = omega arith
failures-le (failure at ∷ calls) = omega (arith, failures-le calls)

run-config :
    (threshold timeout : ℕ) (calls : List Call)
    → ((run threshold timeout calls).failure_threshold ≡ threshold)
      × ((run threshold timeout calls).recovery_timeout ≡ timeout)
unfolding run new record_success record_failure
run-config threshold timeout [] = (refl, refl)
run-config threshold timeout (success ∷ calls) = run-config threshold timeout calls
run-config threshold timeout (failure at ∷ calls) = run-config threshold timeout calls

run-count :
    (threshold timeout : ℕ) (calls : List Call)
    → length calls < 2 ^ 32
    → (run threshold timeout calls).failure_count ≡ failures calls
unfolding run new record_success record_failure failures
run-count threshold timeout [] h = refl
run-count threshold timeout (success ∷ calls) h = refl
run-count threshold timeout (failure at ∷ calls) h =
    omega (arith, run-count threshold timeout calls (omega arith), failures-le calls)

-- The circuit is open when the calls that failed in a row reach the threshold.
run-state :
    (threshold timeout : ℕ) (calls : List Call)
    → length calls < 2 ^ 32
    → (run threshold timeout calls).state_cell
      ≡ (if ltb 0 (failures calls) && leb threshold (failures calls) then open_circuit else closed)
unfolding run new record_success record_failure failures
run-state threshold timeout [] h = refl
run-state threshold timeout (success ∷ calls) h = refl
run-state threshold timeout (failure at ∷ calls) h = ground (
  arith,
  run-state threshold timeout calls (omega arith),
  run-count threshold timeout calls (omega arith),
  failures-le calls,
  run-config threshold timeout calls,
)

-- Over any history of fewer than 2 ^ 32 calls, a request is refused exactly when the newest call
-- failed less than the recovery timeout ago and with it at least `threshold` calls failed in a row.
pub allow_request-run :
    (threshold timeout now : ℕ) (calls : List Call)
    → length calls < 2 ^ 32
    → allow_request now (run threshold timeout calls) ≡ not (held_back threshold timeout now calls)
unfolding allow_request state recovered held_back run new record_success record_failure failures
allow_request-run threshold timeout now [] h = refl
allow_request-run threshold timeout now (success ∷ calls) h = refl
allow_request-run threshold timeout now (failure at ∷ calls) h =
    ground (
      arith,
      run-state threshold timeout (failure at ∷ calls) h,
      run-config threshold timeout calls,
    )
