-- ===== src/Providers/Failover.antt =====
-- src/orchestra/providers/failover.py. What a provider answers, and the clock readings around its
-- call, come from the environment as an `Attempt` for each provider.
pub mod Chain
pub mod Latency
use multi_agent_orchestratio.Base.{
  ℕ, ◌+◌, Bool, true, false, List, [], ◌∷◌, ◌++◌, String, ◌||◌, if◌then◌else◌, ltb, length, drop,
  any,
}
use multi_agent_orchestratio.Security.CircuitBreaker.{
  TimeOps, AsyncCircuitBreaker, allow_request, record_success, record_failure,
}

pub data ErrorCategory : Type 0 where
  retryable terminal model_mismatch : ErrorCategory

-- The class of an exception, as far as `classify_error` looks, and the keywords that occur in its
-- message in lower case.
pub data ErrorClass : Type 0 where
  authentication_error context_window_error rate_limit_error other_error : ErrorClass

pub record ProviderException : Type 0 where
  pub class : ErrorClass
  pub mentions : String → Bool

classify_message : (String → Bool) → ErrorCategory
classify_message mentions =
    if any mentions ("unauthorized" ∷ "invalid api key" ∷ "401" ∷ "403" ∷ [])
    then terminal
    else if any mentions ("context_length_exceeded" ∷ "max tokens" ∷ "too long" ∷ [])
    then model_mismatch
    else if any mentions (
        "rate_limit" ∷ "429" ∷ "timeout" ∷ "deadline" ∷ "500" ∷ "502" ∷ "503" ∷ "504"
        ∷ "server error" ∷ "connection" ∷ "unavailable" ∷ "overloaded" ∷ [])
    then retryable
    else terminal

classify_class : ErrorClass → (String → Bool) → ErrorCategory
classify_class authentication_error mentions = terminal
classify_class context_window_error mentions = model_mismatch
classify_class rate_limit_error mentions = retryable
classify_class other_error mentions = classify_message mentions

unfoldable pub classify_error : ProviderException → ErrorCategory
unfolding classify_message classify_class
classify_error exc = classify_class exc.class exc.mentions

pub data Answer (R : Type 0) : Type 0 where
  response : R → Answer R
  failed : ProviderException → Answer R

pub record Attempt (T R : Type 0) : Type 0 where
  -- The times of the request to the breaker and of the record of a failure.
  pub asked : T
  pub answered : T
  -- `latency_ms`
  pub latency : T
  pub answer : Answer R

-- What `complete` does: it returns, re-raises, or raises `AllProvidersUnavailableError`.
pub data Completion (R : Type 0) : Type 0 where
  returned : R → Completion R
  reraised : ProviderException → Completion R
  all_unavailable : Completion R

abbrev pub passes_on : ErrorCategory → Bool
passes_on retryable = true
passes_on _ = false

-- `_track_latency` for one provider, with `_max_history`.
unfoldable pub track_latency : {L : Type 0} → ℕ → List L → L → List L
track_latency max_history history latency =
    let grown = history ++ latency ∷ [] in
    if ltb max_history (length grown) then drop 1 grown else grown

-- What `ProviderFailover` keeps for one provider: its entries of `_breakers` and `_latency_tracker`.
pub record ProviderState (T : Type 0) : Type 0 where
  pub breaker : AsyncCircuitBreaker T
  pub latencies : List T

module _ {T R : Type 0} (time : TimeOps T) (max_history : ℕ) where
  -- The states after the provider's own, when the chain goes on.
  abbrev pub keep :
      ProviderState T
      → Completion R × List (ProviderState T)
      → Completion R × List (ProviderState T)
  keep provider (completion, providers) = (completion, provider ∷ providers)

  -- The `try` block for one provider, once its breaker let the call through: its answer, the states
  -- of the rest of the chain, and what the loop gives from the next provider on.
  unfoldable pub try_provider :
      Attempt T R
      → Answer R
      → ProviderState T
      → List (ProviderState T)
      → Completion R × List (ProviderState T)
      → Completion R × List (ProviderState T)
  unfolding track_latency
  try_provider attempt (response r) asked providers rest =
      let told = record asked {
        breaker = record_success asked.breaker;
        latencies = track_latency max_history asked.latencies attempt.latency;
      } in
      (returned r, told ∷ providers)
  try_provider attempt (failed exc) asked providers rest =
      let told = record asked { breaker = record_failure attempt.answered asked.breaker } in
      elim (passes_on (classify_error exc)) [
        | true ↦ keep told rest
        | false ↦ (reraised exc, told ∷ providers)
      ]

  -- The loop of `complete`, from one provider on.
  unfoldable pub complete :
      List (ProviderState T) → List (Attempt T R) → Completion R × List (ProviderState T)
  unfolding try_provider
  complete [] attempts = (all_unavailable, [])
  complete (provider ∷ providers) [] = (all_unavailable, provider ∷ providers)
  complete (provider ∷ providers) (attempt ∷ attempts) =
      let rest = complete providers attempts in
      let (allowed, breaker) = allow_request time attempt.asked provider.breaker in
      let asked = record provider { breaker = breaker } in
      elim allowed [
        | false ↦ keep asked rest
        | true ↦ try_provider attempt attempt.answer asked providers rest
      ]
