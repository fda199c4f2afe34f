-- ===== src/Security/CircuitBreaker/Trips.antt =====
-- When a circuit breaker opens, rejects and closes.
use multi_agent_orchestratio.Base.{
  ℕ, suc, ◌+◌, ◌≤◌, ◌<◌, Bool, true, false, Option, none, some, List, [], ◌∷◌, ok, ◌≡◌,
  if◌then◌else◌, leb, arith, All, is_some,
}
use multi_agent_orchestratio.Security.CircuitBreaker.{
  TimeOps, closed, open_circuit, half_open, AsyncCircuitBreaker, create, has_elapsed, allow_request,
  record_success, record_failure, reset,
}

-- A closed breaker has room for a failure, and one that is not closed knows its last failure.
pub record IsValid {T : Type 0} (breaker : AsyncCircuitBreaker T) : Type 0 where
  pub positive : 1 ≤ breaker.failure_threshold
  pub room : breaker.state ≡ closed → breaker.failure_count < breaker.failure_threshold
  pub failed_open : breaker.state ≡ open_circuit → is_some breaker.last_failure_time ≡ true
  pub failed_half : breaker.state ≡ half_open → is_some breaker.last_failure_time ≡ true

-- A call of a method, by whichever task.
pub data Call (T : Type 0) : Type 0 where
  request : T → Call T
  success : Call T
  failure : T → Call T
  restart : Call T

module _ {T : Type 0} (time : TimeOps T) where
  unfoldable pub perform : AsyncCircuitBreaker T → Call T → AsyncCircuitBreaker T
  unfolding allow_request record_success record_failure reset
  perform breaker (request now) = (allow_request time now breaker).1
  perform breaker success = record_success breaker
  perform breaker (failure now) = record_failure now breaker
  perform breaker restart = reset breaker

  unfoldable pub perform_all : AsyncCircuitBreaker T → List (Call T) → AsyncCircuitBreaker T
  perform_all breaker [] = breaker
  perform_all breaker (call ∷ calls) = perform_all (perform breaker call) calls

  pub perform-IsValid :
      (breaker : AsyncCircuitBreaker T) (call : Call T)
      → IsValid breaker
      → IsValid (perform breaker call)
  unfolding perform
  perform-IsValid breaker (request now) v = ground arith
  perform-IsValid breaker success v = ground arith
  perform-IsValid breaker (failure now) v = ground arith
  perform-IsValid breaker restart v = ground arith

  pub perform_all-IsValid :
      (breaker : AsyncCircuitBreaker T) (calls : List (Call T))
      → IsValid breaker
      → IsValid (perform_all breaker calls)
  unfolding perform_all
  perform_all-IsValid breaker [] v = v
  perform_all-IsValid breaker (call ∷ calls) v =
      perform_all-IsValid (perform breaker call) calls (perform-IsValid breaker call v)

  -- Whatever calls come, in any order, to a breaker that was created without an error: while it is
  -- closed its failures stay below the threshold, and while it is not it knows its last failure.
  pub create-IsValid :
      (failure_threshold : ℕ) (reset_timeout : T) (calls : List (Call T))
      {breaker : AsyncCircuitBreaker T}
      → create time failure_threshold reset_timeout ≡ ok breaker
      → IsValid (perform_all breaker calls)
  create-IsValid failure_threshold reset_timeout calls {breaker} h =
      perform_all-IsValid breaker calls (unfold create in ground arith)

  -- The outcomes of calls that were let through: when one failed, or that it succeeded.
  unfoldable pub outcomes : AsyncCircuitBreaker T → List (Option T) → AsyncCircuitBreaker T
  unfolding record_success record_failure
  outcomes breaker [] = breaker
  outcomes breaker (none ∷ rest) = outcomes (record_success breaker) rest
  outcomes breaker (some now ∷ rest) = outcomes (record_failure now breaker) rest

  abbrev pub failures : List (Option T) → ℕ
  failures [] = 0
  failures (none ∷ rest) = failures rest
  failures (some _ ∷ rest) = suc (failures rest)

  outcomes_open :
      (breaker : AsyncCircuitBreaker T) (rest : List (Option T))
      → breaker.state ≡ open_circuit
      → (outcomes breaker rest).state ≡ open_circuit
  unfolding outcomes
  outcomes_open breaker [] h = h
  outcomes_open breaker (none ∷ rest) h = outcomes_open (record_success breaker) rest (ground arith)
  outcomes_open breaker (some now ∷ rest) h =
      outcomes_open (record_failure now breaker) rest (ground arith)

  -- A closed breaker is open after some outcomes exactly when all its failures so far, those
  -- before a success too, reach the threshold, and is closed otherwise: a success does not reset
  -- the count.
  pub outcomes_trip :
      (breaker : AsyncCircuitBreaker T) (rest : List (Option T))
      → breaker.state ≡ closed
      → breaker.failure_count < breaker.failure_threshold
      → (outcomes breaker rest).state ≡ (
          if leb breaker.failure_threshold (breaker.failure_count + failures rest)
          then open_circuit
          else closed)
  unfolding outcomes
  outcomes_trip breaker [] h room = ground arith
  outcomes_trip breaker (none ∷ rest) h room =
      ground (arith, outcomes_trip (record_success breaker) rest)
  outcomes_trip breaker (some now ∷ rest) h room = ground (
    arith,
    outcomes_trip (record_failure now breaker) rest,
    outcomes_open (record_failure now breaker) rest,
  )

  -- The answers to requests at some times.
  unfoldable pub answers : AsyncCircuitBreaker T → List T → List Bool
  unfolding allow_request
  answers breaker [] = []
  answers breaker (now ∷ times) =
      let (allowed, breaker') = allow_request time now breaker in allowed ∷ answers breaker' times

  abbrev AllEqual : Bool → List Bool → Type 0
  AllEqual b = All (λ c. c ≡ b)

  -- An open breaker rejects every request before its timeout has elapsed.
  pub answers_open :
      (breaker : AsyncCircuitBreaker T) (times : List T)
      → breaker.state ≡ open_circuit
      → All (λ now. has_elapsed time breaker now ≡ false) times
      → AllEqual false (answers breaker times)
  unfolding answers
  answers_open breaker [] h early = tt
  answers_open breaker (now ∷ times) h early = ground (arith, answers_open breaker times h early.1)

  answers_of_half_open :
      (breaker : AsyncCircuitBreaker T) (times : List T)
      → breaker.state ≡ half_open
      → AllEqual true (answers breaker times)
  unfolding answers
  answers_of_half_open breaker [] h = tt
  answers_of_half_open breaker (now ∷ times) h =
      ground (arith, answers_of_half_open breaker times h)

  -- Once the timeout has elapsed an open breaker lets the request through and is half open, and
  -- then lets every further request through, as many as come before an outcome is recorded.
  pub answers_half_open :
      (breaker : AsyncCircuitBreaker T) (now : T) (times : List T)
      → breaker.state ≡ open_circuit
      → has_elapsed time breaker now ≡ true
      → AllEqual true (answers breaker (now ∷ times))
  unfolding answers
  answers_half_open breaker now times h late =
      ground (arith, answers_of_half_open (record breaker { state = half_open }) times)
