-- ===== src/Server/CircuitBreaker.antt =====
-- server/src/circuit_breaker.rs: the breaker in front of the metadata service. A time is a number of
-- nanoseconds; each method takes the time at which it runs, and runs alone.
pub mod History
use fs.Base.{
  ℕ, ◌+◌, ◌-◌, ◌%◌, ◌^◌, Bool, true, false, Option, none, some, leb, if◌then◌else◌, nat_eq, text_eq,
}

pub data CircuitState : Type 0 where
  closed : CircuitState
  open_circuit : CircuitState
  half_open : CircuitState

pub record CircuitBreaker : Type 0 where
  pub state_cell : CircuitState
  pub failure_count : ℕ
  pub failure_threshold : ℕ
  pub recovery_timeout : ℕ
  pub last_failure_time : Option ℕ

unfoldable pub new : ℕ → ℕ → CircuitBreaker
new failure_threshold recovery_timeout = record {
  state_cell = closed;
  failure_count = 0;
  failure_threshold = failure_threshold;
  recovery_timeout = recovery_timeout;
  last_failure_time = none;
}

-- What an open circuit shows, by the time of the last failure. `Instant::elapsed` stops at 0.
unfoldable pub recovered : ℕ → ℕ → Option ℕ → CircuitState
recovered now timeout none = open_circuit
recovered now timeout (some last_failure) =
    if leb timeout (now - last_failure) then half_open else open_circuit

unfoldable pub state : ℕ → CircuitBreaker → CircuitState
unfolding recovered
state now b = elim b.state_cell [
  | closed ↦ closed
  | open_circuit ↦ recovered now b.recovery_timeout b.last_failure_time
  | half_open ↦ half_open
]

unfoldable pub allow_request : ℕ → CircuitBreaker → Bool
unfolding state
allow_request now b = elim (state now b) [ closed ↦ true | half_open ↦ true | open_circuit ↦ false ]

unfoldable pub record_success : CircuitBreaker → CircuitBreaker
record_success b = record b { failure_count = 0; state_cell = closed }

-- The counter is a `u32`, which wraps around.
unfoldable pub record_failure : ℕ → CircuitBreaker → CircuitBreaker
record_failure now b =
    let count = (b.failure_count + 1) % 2 ^ 32 in
    record b {
      failure_count = count;
      last_failure_time = some now;
      state_cell = if leb b.failure_threshold count then open_circuit else b.state_cell;
    }
