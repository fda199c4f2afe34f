-- ===== src/Tests/Resilience.antt =====
-- A circuit breaker with threshold 2, and a chain of two providers.
use multi_agent_orchestratio.Base.{
  ℕ, ◌+◌, ◌-◌, false, none, some, List, [], ◌∷◌, ok, ◌≡◌, refl, arith, leb, if◌then◌else◌,
}
use multi_agent_orchestratio.Security.CircuitBreaker.{
  TimeOps, AsyncCircuitBreaker, create, closed, open_circuit,
}
use multi_agent_orchestratio.Security.CircuitBreaker.Trips.{outcomes, failures, outcomes_trip}
use multi_agent_orchestratio.Providers.Failover.{
  Attempt, ProviderState, response, failed, rate_limit_error, complete,
}
use multi_agent_orchestratio.Providers.Failover.Chain.{IsDecided, complete-IsDecided}

abbrev pub time : TimeOps ℕ
time = record { zero_time = 0; minus = λ a b. a - b; le_time = leb }

abbrev pub breaker : AsyncCircuitBreaker ℕ
breaker = record {
  failure_threshold = 2;
  reset_timeout = 30;
  state = closed;
  failure_count = 0;
  success_count = 0;
  last_failure_time = none;
}

pub created : create time 2 30 ≡ ok breaker
unfolding create
created = refl

outcomes_trip_example :
    (outcomes time breaker (some 1 ∷ none ∷ some 3 ∷ [])).state
    ≡ (if leb 2 (0 + failures time (some 1 ∷ none ∷ some 3 ∷ [])) then open_circuit else closed)
outcomes_trip_example = outcomes_trip time breaker (some 1 ∷ none ∷ some 3 ∷ []) refl (omega arith)

-- The first provider is rate limited, the second answers.
abbrev attempts : List (Attempt ℕ ℕ)
attempts =
    record {
      asked = 1;
      answered = 2;
      latency = 1;
      answer = failed (record { class = rate_limit_error; mentions = λ s. false });
    }
    ∷ record { asked = 2; answered = 3; latency = 1; answer = response 7 }
    ∷ []

abbrev provider : ProviderState ℕ
provider = record { breaker = breaker; latencies = [] }

complete-IsDecided_example :
    IsDecided time
      (provider ∷ provider ∷ [])
      attempts
      (complete time 10 (provider ∷ provider ∷ []) attempts).0
complete-IsDecided_example = complete-IsDecided time 10 (provider ∷ provider ∷ []) attempts refl
