-- ===== src/Security/RateLimit.antt =====
-- src/orchestra/security/rate_limit.py. The floats of the clock and of the tokens are a parameter.
pub mod Burst
use multi_agent_orchestratio.Base.{
  ℕ, suc, Bool, true, false, Option, none, some, List, [], String, Result, ok, raise, if◌then◌else◌,
  ltb, value_error,
}
use multi_agent_orchestratio.Base.Dict.{Dict, insert, lookup, erase}

-- The operations of the floats that the bucket uses.
pub record BucketFloats : Type 1 where
  pub F : Type 0
  -- `float(n)` for an `int`.
  pub of_int : ℕ → F
  pub plus : F → F → F
  pub minus : F → F → F
  pub times : F → F → F
  pub over : F → F → F
  -- `x <= y`.
  pub leq : F → F → Bool

module _ (𝓕 : BucketFloats) where
  pub record BucketState : Type 0 where
    pub tokens : 𝓕.F
    pub last_refill : 𝓕.F

  pub record TokenBucket : Type 0 where
    pub max_tokens : ℕ
    pub window_seconds : 𝓕.F
    pub tokens_per_request : ℕ
    pub refill_rate : 𝓕.F
    pub buckets : Dict BucketState

  -- `__init__`; a maximum below 0 is refused like 0.
  unfoldable pub create : ℕ → 𝓕.F → ℕ → Result TokenBucket
  create max_tokens window_seconds tokens_per_request =
      if ltb max_tokens 1
      then raise value_error
      else if 𝓕.leq window_seconds (𝓕.of_int 0)
      then raise value_error
      else ok (record {
        max_tokens = max_tokens;
        window_seconds = window_seconds;
        tokens_per_request = tokens_per_request;
        refill_rate = 𝓕.over (𝓕.of_int max_tokens) window_seconds;
        buckets = [];
      })

  -- `min(self._max_tokens, tokens)`.
  abbrev pub capped : TokenBucket → 𝓕.F → 𝓕.F
  capped limiter tokens =
      if 𝓕.leq (𝓕.of_int limiter.max_tokens) tokens then 𝓕.of_int limiter.max_tokens else tokens

  -- The tokens of a bucket at a time, if time has passed, and as they are otherwise.
  unfoldable pub refilled : TokenBucket → 𝓕.F → BucketState → BucketState
  refilled limiter now bucket =
      let elapsed = 𝓕.minus now bucket.last_refill in
      if 𝓕.leq elapsed (𝓕.of_int 0) then bucket else record {
        tokens = capped limiter (𝓕.plus bucket.tokens (𝓕.times elapsed limiter.refill_rate));
        last_refill = now;
      }

  -- `self._buckets[identity]`, which is made where it is missing.
  unfoldable pub bucket_of : TokenBucket → String → 𝓕.F → BucketState
  bucket_of limiter identity now = elim (lookup identity limiter.buckets) [
    | none ↦ record { tokens = 𝓕.of_int limiter.max_tokens; last_refill = now }
    | some bucket ↦ bucket
  ]

  -- The consumption: whether the request is allowed, and the bucket after it.
  unfoldable pub consume : TokenBucket → BucketState → Bool × BucketState
  consume limiter bucket =
      if 𝓕.leq (𝓕.of_int limiter.tokens_per_request) bucket.tokens
      then (
        true,
        record bucket { tokens = 𝓕.minus bucket.tokens (𝓕.of_int limiter.tokens_per_request) },
      )
      else (false, bucket)

  unfoldable pub allow : String → 𝓕.F → TokenBucket → Bool × TokenBucket
  allow identity now limiter =
      let (allowed, bucket) =
        consume limiter (refilled limiter now (bucket_of limiter identity now)) in
      (allowed, record limiter { buckets = insert identity bucket limiter.buckets })

  unfoldable pub remaining : String → 𝓕.F → TokenBucket → 𝓕.F
  unfolding refilled
  remaining identity now limiter = elim (lookup identity limiter.buckets) [
    | none ↦ 𝓕.of_int limiter.max_tokens
    | some bucket ↦ (refilled limiter now bucket).tokens
  ]

  unfoldable pub reset : Option String → TokenBucket → TokenBucket
  reset none limiter = record limiter { buckets = [] }
  reset (some identity) limiter = record limiter { buckets = erase identity limiter.buckets }
