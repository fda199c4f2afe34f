-- ===== src/Security/CircuitBreaker.antt =====
-- src/orchestra/security/circuit_breaker.py. The times are floats of the monotonic clock: their
-- operations are a parameter. The lock makes each method one step.
pub mod Trips
pub mod Recovers
use multi_agent_orchestratio.Base.{
  ℕ, suc, ◌+◌, ◌≤◌, ◌<◌, Bool, true, false, Option, none, some, List, [], ◌∷◌, Result, ok, raise,
  ◌≡◌, if◌then◌else◌, ltb, leb, value_error, circuit_open_error, arith,
}

-- Subtraction and `<=` of the floats, and 0.0.
pub record TimeOps (T : Type 0) : Type 0 where
  pub zero_time : T
  pub minus : T → T → T
  pub le_time : T → T → Bool

pub data CircuitState : Type 0 where
  closed open_circuit half_open : CircuitState

pub record AsyncCircuitBreaker (T : Type 0) : Type 0 where
  pub failure_threshold : ℕ
  pub reset_timeout : T
  pub state : CircuitState
  pub failure_count : ℕ
  pub success_count : ℕ
  pub last_failure_time : Option T

module _ {T : Type 0} (time : TimeOps T) where
  -- `__init__`; the threshold is an int, and those below 0 are refused like 0.
  unfoldable pub create : ℕ → T → Result (AsyncCircuitBreaker T)
  create failure_threshold reset_timeout =
      if ltb failure_threshold 1
      then raise value_error
      else if time.le_time reset_timeout time.zero_time
      then raise value_error
      else ok (record {
        failure_threshold = failure_threshold;
        reset_timeout = reset_timeout;
        state = closed;
        failure_count = 0;
        success_count = 0;
        last_failure_time = none;
      })

  -- `elapsed >= self._reset_timeout`, which fails where there is no last failure.
  abbrev pub has_elapsed : AsyncCircuitBreaker T → T → Bool
  has_elapsed breaker now = elim breaker.last_failure_time [
    | none ↦ false
    | some last ↦ time.le_time breaker.reset_timeout (time.minus now last)
  ]

  allow_in : CircuitState → T → AsyncCircuitBreaker T → Bool × AsyncCircuitBreaker T
  allow_in closed now breaker = (true, breaker)
  allow_in open_circuit now breaker =
      if has_elapsed breaker now
      then (true, record breaker { state = half_open })
      else (false, breaker)
  allow_in half_open now breaker = (true, breaker)

  unfoldable pub allow_request : T → AsyncCircuitBreaker T → Bool × AsyncCircuitBreaker T
  unfolding allow_in
  allow_request now breaker = allow_in breaker.state now breaker

module _ {T : Type 0} where
  success_in : CircuitState → AsyncCircuitBreaker T → AsyncCircuitBreaker T
  success_in half_open breaker = record breaker { state = closed; failure_count = 0 }
  success_in _ breaker = breaker

  unfoldable pub record_success : AsyncCircuitBreaker T → AsyncCircuitBreaker T
  unfolding success_in
  record_success breaker =
      success_in breaker.state (record breaker { success_count = breaker.success_count + 1 })

  failure_in : CircuitState → AsyncCircuitBreaker T → AsyncCircuitBreaker T
  failure_in half_open breaker = record breaker { state = open_circuit }
  failure_in closed breaker =
      if leb breaker.failure_threshold breaker.failure_count
      then record breaker { state = open_circuit }
      else breaker
  failure_in open_circuit breaker = breaker

  unfoldable pub record_failure : T → AsyncCircuitBreaker T → AsyncCircuitBreaker T
  unfolding failure_in
  record_failure now breaker =
      failure_in breaker.state
        (record breaker { failure_count = breaker.failure_count + 1; last_failure_time = some now })

  unfoldable pub reset : AsyncCircuitBreaker T → AsyncCircuitBreaker T
  reset breaker = record breaker {
    state = closed;
    failure_count = 0;
    success_count = 0;
    last_failure_time = none;
  }

  -- `__aexit__`: whether the body raised.
  unfoldable pub exit : Bool → T → AsyncCircuitBreaker T → AsyncCircuitBreaker T
  unfolding record_success record_failure
  exit raised now breaker = if raised then record_failure now breaker else record_success breaker

module _ {T : Type 0} (time : TimeOps T) where
  -- `__aenter__`; what it raises carries the remaining seconds, which are left out.
  unfoldable pub enter : T → AsyncCircuitBreaker T → Result (Unit {0}) × AsyncCircuitBreaker T
  unfolding allow_request
  enter now breaker =
      let (allowed, breaker') = allow_request time now breaker in
      (if allowed then ok tt else raise circuit_open_error, breaker')
