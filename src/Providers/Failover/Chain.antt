-- ===== src/Providers/Failover/Chain.antt =====
-- Which provider of the chain decides, and what becomes of the chain's state.
use multi_agent_orchestratio.Base.{
  ℕ, suc, Bool-cases, inl, inr, true, false, List, [], ◌∷◌, ◌≡◌, refl, ap, arith, All, String, Bool,
  ◌⊎◌, length, length-append, length-drop, ◌++◌, ◌≤◌,
}
use multi_agent_orchestratio.Base.Exists.{Exists, any_to, any_of, none_to, none_of}
use multi_agent_orchestratio.Security.CircuitBreaker.{TimeOps, allow_request, record_failure}
use multi_agent_orchestratio.Security.CircuitBreaker.Trips.{
  IsValid, perform, perform-IsValid, request, success, failure,
}
use multi_agent_orchestratio.Providers.Failover.{
  Attempt, Answer, ProviderState, track_latency, response, failed, Completion, returned, reraised,
  all_unavailable, complete, try_provider, passes_on, classify_error, ProviderException, ErrorClass,
  authentication_error, context_window_error, rate_limit_error, other_error, classify_message,
  classify_class,
}

-- What names a refused authorization or a too long context, and what names a passing trouble.
abbrev pub barring_words : List String
barring_words =
    "unauthorized" ∷ "invalid api key" ∷ "401" ∷ "403" ∷ "context_length_exceeded" ∷ "max tokens"
    ∷ "too long" ∷ []

abbrev pub passing_words : List String
passing_words =
    "rate_limit" ∷ "429" ∷ "timeout" ∷ "deadline" ∷ "500" ∷ "502" ∷ "503" ∷ "504" ∷ "server error"
    ∷ "connection" ∷ "unavailable" ∷ "overloaded" ∷ []

-- An error that the next provider may not have: a rate limit, or one of no known class whose message
-- names neither a refused authorization nor a too long context, but a passing trouble.
abbrev pub IsRetryable : ProviderException → Type 0
IsRetryable exc = elim exc.class [
  | authentication_error ↦ ⊥
  | context_window_error ↦ ⊥
  | rate_limit_error ↦ Unit
  | other_error ↦
      All (λ word. exc.mentions word ≡ false) barring_words
      × Exists (λ word. exc.mentions word ≡ true) passing_words
]

classify_class-IsRetryable :
    (class : ErrorClass) (mentions : String → Bool)
    → passes_on (classify_class class mentions) ≡ true
    → IsRetryable (record { class = class; mentions = mentions })
unfolding classify_class classify_message
classify_class-IsRetryable authentication_error mentions h = cc
classify_class-IsRetryable context_window_error mentions h = cc
classify_class-IsRetryable rate_limit_error mentions h = tt
classify_class-IsRetryable other_error mentions h = (
  none_to mentions barring_words (ground arith),
  any_to mentions _ passing_words (λ word. (λ m. m, λ m. m)) (ground arith),
)

classify_class-not_IsRetryable :
    (class : ErrorClass) (mentions : String → Bool)
    → passes_on (classify_class class mentions) ≡ false
    → ¬ IsRetryable (record { class = class; mentions = mentions })
unfolding classify_class classify_message
classify_class-not_IsRetryable authentication_error mentions h retryable = retryable
classify_class-not_IsRetryable context_window_error mentions h retryable = retryable
classify_class-not_IsRetryable rate_limit_error mentions h retryable = cc
classify_class-not_IsRetryable other_error mentions h (unnamed, named) =
    let never = none_of mentions barring_words unnamed in
    let some_word = any_of mentions _ passing_words (λ word. (λ m. m, λ m. m)) named in ground arith

classify_error-IsRetryable :
    (exc : ProviderException) → passes_on (classify_error exc) ≡ true → IsRetryable exc
unfolding classify_error
classify_error-IsRetryable exc h = classify_class-IsRetryable exc.class exc.mentions h

classify_error-not_IsRetryable :
    (exc : ProviderException) → passes_on (classify_error exc) ≡ false → ¬ IsRetryable exc
unfolding classify_error
classify_error-not_IsRetryable exc h = classify_class-not_IsRetryable exc.class exc.mentions h

module _ {T R : Type 0} (time : TimeOps T) where
  -- A provider whose breaker rejects the request, or which answers with a retryable error.
  abbrev pub IsPassedOver : ProviderState T → Attempt T R → Type 0
  IsPassedOver provider attempt =
      ((allow_request time attempt.asked provider.breaker).0 ≡ false)
      ⊎ ((exc : ProviderException) × (attempt.answer ≡ failed exc) × IsRetryable exc)

  -- A provider that is asked and decides the whole call.
  abbrev pub Decides : ProviderState T → Attempt T R → Completion R → Type 0
  Decides provider attempt (returned r) =
      ((allow_request time attempt.asked provider.breaker).0 ≡ true) × (attempt.answer ≡ response r)
  Decides provider attempt (reraised exc) =
      ((allow_request time attempt.asked provider.breaker).0 ≡ true)
      × (attempt.answer ≡ failed exc)
      × (¬ IsRetryable exc)
  Decides provider attempt all_unavailable = ⊥

  -- The completion is that of the first provider that is not passed over, if there is one.
  pub data IsDecided : List (ProviderState T) → List (Attempt T R) → Completion R → Type 0 where
    by_provider :
        {provider : ProviderState T} {attempt : Attempt T R} {completion : Completion R}
        {providers : List (ProviderState T)} {attempts : List (Attempt T R)}
        → Decides provider attempt completion
        → IsDecided (provider ∷ providers) (attempt ∷ attempts) completion
    passed_over :
        {provider : ProviderState T} {attempt : Attempt T R} {completion : Completion R}
        {providers : List (ProviderState T)} {attempts : List (Attempt T R)}
        → IsPassedOver provider attempt
        → IsDecided providers attempts completion
        → IsDecided (provider ∷ providers) (attempt ∷ attempts) completion
    none_left : IsDecided [] [] all_unavailable

module _ {T : Type 0} (max_history : ℕ) where
  -- A valid breaker, and no more latencies than the history holds.
  pub record IsTracked (provider : ProviderState T) : Type 0 where
    pub valid : IsValid provider.breaker
    pub short : length provider.latencies ≤ max_history

  length-track_latency :
      (history : List T) (latency : T)
      → length history ≤ max_history
      → length (track_latency max_history history latency) ≤ max_history
  unfolding track_latency
  length-track_latency history latency h =
      let grown = history ++ latency ∷ [] in
      ground (arith, length-append history (latency ∷ []), length-drop 1 grown)

module _ {T R : Type 0} (time : TimeOps T) (max_history : ℕ) where
  -- With an attempt for each provider, the call ends as the first provider in priority order says
  -- that its breaker lets be asked and that does not fail in a retryable way: with its response, or
  -- with its error. If there is none, the call raises `AllProvidersUnavailableError`. An error is
  -- retryable if it is a rate limit, or is of no known class and its message names a passing
  -- trouble, but neither a refused authorization nor a too long context.
  pub complete-IsDecided :
      (providers : List (ProviderState T)) (attempts : List (Attempt T R))
      → length providers ≡ length attempts
      → IsDecided time providers attempts (complete time max_history providers attempts).0
  unfolding complete try_provider
  complete-IsDecided [] [] even = none_left
  complete-IsDecided [] (attempt ∷ attempts) even = absurd (omega arith)
  complete-IsDecided (provider ∷ providers) [] even = absurd (omega arith)
  complete-IsDecided (provider ∷ providers) (attempt ∷ attempts) even =
      let rest = complete-IsDecided providers attempts (omega arith) in
      elim (Bool-cases (allow_request time attempt.asked provider.breaker).0) [
        | inr rejects ↦ rw (complete, rejects) (passed_over (inl rejects) rest)
        | inl asks ↦
            rw (complete, asks)
              (decided provider attempt providers attempts asks rest attempt.answer refl)
      ]
    where
      decided :
          (provider : ProviderState T) (attempt : Attempt T R) (providers : List (ProviderState T))
          (attempts : List (Attempt T R))
          → (allow_request time attempt.asked provider.breaker).0 ≡ true
          → IsDecided time providers attempts (complete time max_history providers attempts).0
          → (answer : Answer R) → attempt.answer ≡ answer
          → IsDecided time
              (provider ∷ providers)
              (attempt ∷ attempts)
              (try_provider time max_history attempt answer
                (record provider {
                  breaker = (allow_request time attempt.asked provider.breaker).1;
                })
                providers
                (complete time max_history providers attempts)).0
      decided provider attempt providers attempts asks rest (response r) said =
          by_provider (asks, said)
      decided provider attempt providers attempts asks rest (failed exc) said =
          elim (Bool-cases (passes_on (classify_error exc))) [
            | inl goes_on ↦
                rw (try_provider, goes_on)
                  (passed_over (inr (exc, said, classify_error-IsRetryable exc goes_on)) rest)
            | inr ends ↦
                rw (try_provider, ends)
                  (by_provider (asks, said, classify_error-not_IsRetryable exc ends))
          ]

  LeavesTracked : ℕ → Completion R × List (ProviderState T) → Type 0
  LeavesTracked n result = All (IsTracked max_history) result.1 × (length result.1 ≡ n)

  try_provider-IsTracked :
      (attempt : Attempt T R) (answer : Answer R) (asked : ProviderState T)
      (providers : List (ProviderState T)) (rest : Completion R × List (ProviderState T))
      → IsTracked max_history asked
      → All (IsTracked max_history) providers
      → LeavesTracked (length providers) rest
      → LeavesTracked
          (suc (length providers))
          (try_provider time max_history attempt answer asked providers rest)
  unfolding try_provider perform LeavesTracked
  try_provider-IsTracked attempt (response r) asked providers rest v vs hrest = (
    (
      record {
        valid = perform-IsValid time asked.breaker success v.valid;
        short = length-track_latency max_history asked.latencies attempt.latency v.short;
      },
      vs,
    ),
    refl,
  )
  try_provider-IsTracked attempt (failed exc) asked providers rest v vs hrest =
      let told = record asked { breaker = record_failure attempt.answered asked.breaker } in
      let told-v : IsTracked max_history told = record {
        valid = perform-IsValid time asked.breaker (failure attempt.answered) v.valid;
        short = v.short;
      } in
      elim (Bool-cases (passes_on (classify_error exc))) [
        | inl goes_on ↦ rw (goes_on, try_provider) ((told-v, hrest.0), ap suc hrest.1)
        | inr ends ↦ rw (ends, try_provider) ((told-v, vs), refl)
      ]

  -- However the call ends, it leaves for each provider a valid breaker and at most `max_history`
  -- latencies, if it found them so.
  pub complete-IsTracked :
      (providers : List (ProviderState T)) (attempts : List (Attempt T R))
      → All (IsTracked max_history) providers
      → All (IsTracked max_history) (complete time max_history providers attempts).1
        × (length (complete time max_history providers attempts).1 ≡ length providers)
  unfolding complete LeavesTracked perform
  complete-IsTracked [] attempts v = (tt, refl)
  complete-IsTracked (provider ∷ providers) [] v = (v, refl)
  complete-IsTracked (provider ∷ providers) (attempt ∷ attempts) (v, vs) =
      let (allowed, breaker) = allow_request time attempt.asked provider.breaker in
      let asked = record provider { breaker = breaker } in
      let asked-v : IsTracked max_history asked = record {
        valid = perform-IsValid time provider.breaker (request attempt.asked) v.valid;
        short = v.short;
      } in
      let rest = complete-IsTracked providers attempts vs in
      let tried =
        try_provider-IsTracked attempt attempt.answer asked providers
          (complete time max_history providers attempts) asked-v vs rest in
      elim (Bool-cases (allow_request time attempt.asked provider.breaker).0) [
        | inl allows ↦ rw (allows, complete) tried
        | inr rejects ↦ rw (rejects, complete) ((asked-v, rest.0), ap suc rest.1)
      ]
