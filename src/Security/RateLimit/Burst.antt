-- ===== src/Security/RateLimit/Burst.antt =====
-- How many requests the limiter of src/orchestra/security/rate_limit.py allows at once.
use mathlib.Core.Path.{subst}
use multi_agent_orchestratio.Base.{
  ℕ, ◌+◌, ◌-◌, ◌*◌, ◌≤◌, Bool, true, false, List, [], ◌∷◌, String, ok, ◌==◌, if◌then◌else◌, leb,
  ◌≡◌, refl, ap, arith, eq_refl, Bool-cases, inl, inr, eq_iff, leb→le, ltb, ok_inj,
}
use multi_agent_orchestratio.Base.Numbers.{mul_suc_left}
use multi_agent_orchestratio.Base.Dict.{lookup, insert, lookup-insert, lookup-insert_self}
use multi_agent_orchestratio.Security.RateLimit.{
  BucketFloats, BucketState, TokenBucket, create, refilled, bucket_of, consume, allow,
}

-- 2 ^ 53, up to which every `int` is a float.
abbrev pub exact_limit : ℕ
exact_limit = 9007199254740992

-- What floats do on the integers up to 2 ^ 53, and that no time passes from a finite time to itself.
pub record CountsExactly (𝓕 : BucketFloats) (now : 𝓕.F) : Type 0 where
  pub compares :
      (m n : ℕ) → m ≤ exact_limit → n ≤ exact_limit → 𝓕.leq (𝓕.of_int m) (𝓕.of_int n) ≡ leb m n
  pub subtracts :
      (m n : ℕ) → m ≤ exact_limit → n ≤ m → 𝓕.minus (𝓕.of_int m) (𝓕.of_int n) ≡ 𝓕.of_int (m - n)
  pub stands_still : 𝓕.leq (𝓕.minus now now) (𝓕.of_int 0) ≡ true

module _ (𝓕 : BucketFloats) where
  -- Requests of some identities at one time: how many of the identity's are allowed.
  unfoldable pub allowed_at : 𝓕.F → String → List String → TokenBucket 𝓕 → ℕ
  allowed_at now identity [] limiter = 0
  allowed_at now identity (asking ∷ rest) limiter =
      let (allowed, after) = allow 𝓕 asking now limiter in
      let later = allowed_at now identity rest after in
      if asking == identity then (if allowed then 1 else 0) + later else later

  module _ (now : 𝓕.F) (exact : CountsExactly 𝓕 now) (identity : String) where
    abbrev still : 𝓕.F → BucketState 𝓕
    still tokens = record { tokens = tokens; last_refill = now }

    -- The identity's bucket is at the time and has so many tokens.
    abbrev Holds : ℕ → TokenBucket 𝓕 → Type 0
    Holds k limiter = bucket_of 𝓕 limiter identity now ≡ still (𝓕.of_int k)

    other_keeps :
        (k : ℕ) (asking : String) (limiter : TokenBucket 𝓕)
        → (asking == identity) ≡ false
        → Holds k limiter
        → Holds k (allow 𝓕 asking now limiter).1
    unfolding allow bucket_of
    other_keeps k asking limiter other holds =
        rw (bucket_of, lookup-insert asking identity _ limiter.buckets) (rw other holds)

    refilled-still :
        (limiter : TokenBucket 𝓕) (tokens : 𝓕.F)
        → refilled 𝓕 limiter now (still tokens) ≡ still tokens
    unfolding refilled
    refilled-still limiter tokens = rw (exact.stands_still) refl

    consume-still :
        (limiter : TokenBucket 𝓕) (k : ℕ)
        → limiter.tokens_per_request ≤ exact_limit
        → k ≤ exact_limit
        → consume 𝓕 limiter (still (𝓕.of_int k)) ≡ (
          leb limiter.tokens_per_request k,
          still (
              𝓕.of_int
                (if leb limiter.tokens_per_request k then k - limiter.tokens_per_request else k)),
        )
    unfolding consume
    consume-still limiter k small few = elim (Bool-cases (leb limiter.tokens_per_request k)) [
      | inl enough ↦
          rw (exact.compares limiter.tokens_per_request k small few)
            (rw (enough, exact.subtracts k limiter.tokens_per_request few (leb→le _ k enough)) refl)
      | inr short ↦ rw (exact.compares limiter.tokens_per_request k small few) (rw short refl)
    ]

    own_takes :
        (k : ℕ) (limiter : TokenBucket 𝓕)
        → limiter.tokens_per_request ≤ exact_limit
        → k ≤ exact_limit
        → Holds k limiter
        → allow 𝓕 identity now limiter ≡ (
          leb limiter.tokens_per_request k,
          record limiter {
            buckets =
                insert identity
                  (still (
                    𝓕.of_int (
                      if leb limiter.tokens_per_request k
                      then k - limiter.tokens_per_request
                      else k)))
                  limiter.buckets;
          },
        )
    unfolding allow
    own_takes k limiter small few holds =
        rw holds
          (rw (refilled-still limiter (𝓕.of_int k)) (rw (consume-still limiter k small few) refl))

    -- The tokens that are left after the identity's own request.
    abbrev left_of : TokenBucket 𝓕 → ℕ → ℕ
    left_of limiter k =
        if leb limiter.tokens_per_request k then k - limiter.tokens_per_request else k

    own_keeps :
        (k : ℕ) (limiter : TokenBucket 𝓕)
        → limiter.tokens_per_request ≤ exact_limit
        → k ≤ exact_limit
        → Holds k limiter
        → Holds (left_of limiter k) (allow 𝓕 identity now limiter).1
    unfolding bucket_of
    own_keeps k limiter small few holds =
        rw (own_takes k limiter small few holds)
          (rw (bucket_of, lookup-insert_self identity _ limiter.buckets) refl)

    allow-tokens_per_request :
        (asking : String) (limiter : TokenBucket 𝓕)
        → (allow 𝓕 asking now limiter).1.tokens_per_request ≡ limiter.tokens_per_request
    unfolding allow
    allow-tokens_per_request asking limiter = refl

    allowed_at-le :
        (requests : List String) (k : ℕ) (limiter : TokenBucket 𝓕)
        → limiter.tokens_per_request ≤ exact_limit
        → k ≤ exact_limit
        → Holds k limiter
        → allowed_at now identity requests limiter * limiter.tokens_per_request ≤ k
    unfolding allowed_at
    allowed_at-le [] k limiter small few holds = omega arith
    allowed_at-le (asking ∷ rest) k limiter small few holds =
        elim (Bool-cases (asking == identity)) [
          | inr other ↦
              let same = allow-tokens_per_request asking limiter in
              let ih =
                allowed_at-le rest k _ (rw same small) few
                  (other_keeps k asking limiter other holds) in
              rw other (rw same at ih)
          | inl own ↦
              let e = (eq_iff asking identity).0 own in
              rw e (
                rw (eq_refl identity) (
                  let same = allow-tokens_per_request identity limiter in
                  let fewer : left_of limiter k ≤ exact_limit = ground arith in
                  let ih =
                    allowed_at-le rest (left_of limiter k) _ (rw same small) fewer
                      (own_keeps k limiter small few holds) in
                  let answer =
                    ap (λ (r : Bool × TokenBucket 𝓕). r.0) (own_takes k limiter small few holds) in
                  rw answer (
                    let count = allowed_at now identity rest (allow 𝓕 identity now limiter).1 in
                    let below : count * limiter.tokens_per_request ≤ left_of limiter k =
                      rw same at ih in
                    let more = mul_suc_left count limiter.tokens_per_request in ground arith)))
        ]

  abbrev fresh : ℕ → ℕ → 𝓕.F → TokenBucket 𝓕
  fresh max_tokens tokens_per_request window_seconds = record {
    max_tokens = max_tokens;
    window_seconds = window_seconds;
    tokens_per_request = tokens_per_request;
    refill_rate = 𝓕.over (𝓕.of_int max_tokens) window_seconds;
    buckets = [];
  }

  create-eq-ok :
      (max_tokens tokens_per_request : ℕ) (window_seconds : 𝓕.F) {limiter : TokenBucket 𝓕}
      → create 𝓕 max_tokens window_seconds tokens_per_request ≡ ok limiter
      → fresh max_tokens tokens_per_request window_seconds ≡ limiter
  unfolding create
  create-eq-ok max_tokens tokens_per_request window_seconds created =
      elim (Bool-cases (ltb max_tokens 1)) [
        | inl small ↦ cc (rw (small, create) at created)
        | inr positive ↦ elim (Bool-cases (𝓕.leq window_seconds (𝓕.of_int 0))) [
          | inl empty ↦ cc (rw (positive, empty, create) at created)
          | inr lasting ↦ ok_inj (rw (positive, lasting, create) at created)
        ]
      ]

  -- Of any requests at one time, by any identities in any order, a new limiter allows each identity
  -- at most as many as its maximum of tokens pays for, where both numbers of tokens are at most
  -- 2 ^ 53, up to which floats count exactly.
  pub allowed_at-bounds :
      (max_tokens tokens_per_request : ℕ) (window_seconds now : 𝓕.F) (identity : String)
      (requests : List String) {limiter : TokenBucket 𝓕}
      → CountsExactly 𝓕 now
      → max_tokens ≤ exact_limit
      → tokens_per_request ≤ exact_limit
      → create 𝓕 max_tokens window_seconds tokens_per_request ≡ ok limiter
      → allowed_at now identity requests limiter * tokens_per_request ≤ max_tokens
  unfolding bucket_of lookup
  allowed_at-bounds max_tokens tokens_per_request window_seconds now identity requests {limiter}
        exact few small created =
      let started = fresh max_tokens tokens_per_request window_seconds in
      subst
        (λ (l : TokenBucket 𝓕).
          allowed_at now identity requests l * tokens_per_request ≤ max_tokens)
        (create-eq-ok max_tokens tokens_per_request window_seconds created)
        (allowed_at-le now exact identity requests max_tokens started small few refl)
