-- ===== src/Security/CircuitBreaker/Recovers.antt =====
-- That a circuit breaker of src/orchestra/security/circuit_breaker.py can close again.
use multi_agent_orchestratio.Base.{
  ℕ, true, none, List, ok, ◌≡◌, refl, arith, is_some, Option-cases, inl, inr,
}
use multi_agent_orchestratio.Security.CircuitBreaker.{
  TimeOps, CircuitState, closed, open_circuit, half_open, AsyncCircuitBreaker, create, has_elapsed,
  allow_request, allow_in, record_success,
}
use multi_agent_orchestratio.Security.CircuitBreaker.Trips.{
  IsValid, Call, perform_all, create-IsValid,
}

module _ {T : Type 0} (time : TimeOps T) where
  -- However long a timeout is, it has elapsed at some later time.
  abbrev pub TimePasses : Type 0
  TimePasses = (timeout last : T) → (now : T) × (time.le_time timeout (time.minus now last) ≡ true)

  -- From some time on a request is let through, and if its call succeeds the breaker is closed.
  pub record Recovers (breaker : AsyncCircuitBreaker T) : Type 0 where
    pub now : T
    pub allowed : (allow_request time now breaker).0 ≡ true
    pub closes : (record_success (allow_request time now breaker).1).state ≡ closed

  allowed_in :
      (state : CircuitState) (breaker : AsyncCircuitBreaker T) (now : T)
      → (state ≡ open_circuit → has_elapsed time breaker now ≡ true)
      → breaker.state ≡ state
      → ((allow_in time state now breaker).0 ≡ true)
        × ((record_success (allow_in time state now breaker).1).state ≡ closed)
  unfolding allow_in record_success
  allowed_in closed breaker now late same = ground arith
  allowed_in half_open breaker now late same = ground arith
  allowed_in open_circuit breaker now late same = let elapsed = late refl in rw elapsed (refl, refl)

  recover_at :
      (breaker : AsyncCircuitBreaker T) (now : T)
      → (breaker.state ≡ open_circuit → has_elapsed time breaker now ≡ true)
      → Recovers breaker
  unfolding allow_request
  recover_at breaker now late =
      let (allowed, closes) = allowed_in breaker.state breaker now late refl in
      record { now = now; allowed = allowed; closes = closes }

  valid-Recovers :
      (breaker : AsyncCircuitBreaker T) → TimePasses → IsValid breaker → Recovers breaker
  valid-Recovers breaker passes valid = elim (Option-cases breaker.last_failure_time) [
    | inl never ↦
        recover_at breaker time.zero_time (λ opened. absurd_open (valid.failed_open opened) never)
    | inr (last, failed) ↦
        let (now, late) = passes breaker.reset_timeout last in
        recover_at breaker now (λ _. rw (failed, has_elapsed) late)
  ]
    where
      absurd_open :
          is_some breaker.last_failure_time ≡ true
          → breaker.last_failure_time ≡ none
          → has_elapsed time breaker time.zero_time ≡ true
      absurd_open known never = cc (rw never at known)

  -- Whatever calls came to a breaker that was created without an error, there is a time at which it
  -- lets a request through, and if that call succeeds the breaker is closed, if time passes.
  pub create-Recovers :
      (failure_threshold : ℕ) (reset_timeout : T) (calls : List (Call T))
      {breaker : AsyncCircuitBreaker T}
      → TimePasses
      → create time failure_threshold reset_timeout ≡ ok breaker
      → Recovers (perform_all time breaker calls)
  create-Recovers failure_threshold reset_timeout calls {breaker} passes created =
      valid-Recovers (perform_all time breaker calls) passes
        (create-IsValid time failure_threshold reset_timeout calls created)
