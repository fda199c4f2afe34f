-- ===== src/Tests/Services.antt =====
-- A limiter of two tokens, a breaker with threshold 2, and a cache around a provider, over ℕ.
use multi_agent_orchestratio.Base.{
  none, ℕ, ◌+◌, ◌-◌, ◌*◌, ◌≤◌, false, some, List, [], ◌∷◌, String, ok, ◌≡◌, refl, sym, arith, leb,
  inl, inr, Bool-cases, ◌⊎◌, ◌==◌, eq_iff, ok_inj, some_inj, if◌then◌else◌, ap, map, ◌∙◌, ltb,
}
use multi_agent_orchestratio.Base.Dict.{Dict, insert, lookup, lookup-insert}
use multi_agent_orchestratio.Security.RateLimit.{BucketFloats, TokenBucket, create}
use multi_agent_orchestratio.Security.RateLimit.Burst.{
  exact_limit, CountsExactly, allowed_at, allowed_at-bounds,
}
use multi_agent_orchestratio.Security.CircuitBreaker.Trips.{request, failure, perform_all}
use multi_agent_orchestratio.Security.CircuitBreaker.Recovers.{
  TimePasses, Recovers, create-Recovers,
}
use multi_agent_orchestratio.Tests.Resilience.{time, breaker, created}
use multi_agent_orchestratio.Providers.Cached.{Request, Setup, complete_all}
use multi_agent_orchestratio.Providers.Cached.Sound.{
  IsCache, Separates, IsFaithful, AllRight, complete_all-AllRight,
}

-- Floats that count up to 2 ^ 53 and no further.
abbrev saturated : ℕ → ℕ
saturated n = if leb n exact_limit then n else exact_limit

abbrev naturals : BucketFloats
naturals = record {
  F = ℕ;
  of_int = saturated;
  plus = λ a b. saturated (a + b);
  minus = λ a b. a - b;
  times = λ a b. saturated (a * b);
  over = λ a b. 1;
  leq = leb;
}

naturals-CountsExactly : CountsExactly naturals 5
naturals-CountsExactly = record {
  compares = λ m n few small. ground arith;
  subtracts = λ m n few le. ground arith;
  stands_still = ground arith;
}

abbrev limiter : TokenBucket naturals
limiter = record {
  max_tokens = 2;
  window_seconds = 60;
  tokens_per_request = 1;
  refill_rate = 1;
  buckets = [];
}

limited : create naturals 2 60 1 ≡ ok limiter
unfolding create
limited = refl

-- Of three requests of "a" two are allowed.
a_is_allowed_twice : allowed_at naturals 5 "a" ("a" ∷ "b" ∷ "a" ∷ "a" ∷ []) limiter ≡ 2
unfolding allowed_at multi_agent_orchestratio.Security.RateLimit.allow lookup insert
    multi_agent_orchestratio.Security.RateLimit.consume
    multi_agent_orchestratio.Security.RateLimit.refilled
    multi_agent_orchestratio.Security.RateLimit.bucket_of
a_is_allowed_twice = refl

allowed_at-bounds_example : allowed_at naturals 5 "a" ("a" ∷ "b" ∷ "a" ∷ "a" ∷ []) limiter * 1 ≤ 2
allowed_at-bounds_example =
    allowed_at-bounds naturals 2 1 60 5 "a" ("a" ∷ "b" ∷ "a" ∷ "a" ∷ []) naturals-CountsExactly
      (omega arith) (omega arith) limited

time_passes : TimePasses time
time_passes timeout last = (timeout + last, ground arith)

create-Recovers_example :
    Recovers time (perform_all time breaker (failure 1 ∷ failure 2 ∷ request 40 ∷ failure 41 ∷ []))
create-Recovers_example =
    create-Recovers time 2 30 (failure 1 ∷ failure 2 ∷ request 40 ∷ failure 41 ∷ []) time_passes
      created

-- A request without tools and output types, whose one message is a text.
abbrev Asked : Type 0
Asked = Request ℕ String (Unit {0}) (Unit {0})

abbrev asks : String → Asked
asks question = record {
  messages = question ∷ [];
  model = none;
  tools = none;
  temperature = 0;
  max_tokens = none;
  output_type = none;
}

-- The provider's answer to a history; the world counts its calls. A cache key is the first message.
abbrev answer_to : List String → ℕ
answer_to [] = 0
answer_to (question ∷ rest) = if question == "hi" then 1 else 2

abbrev first_of : List String → String
first_of [] = ""
first_of (message ∷ messages) = message

abbrev cached : Setup ℕ String String (Unit {0}) (Unit {0}) ℕ (Dict ℕ) ℕ
cached = record {
  ask = λ asked calls. (ok (answer_to asked.messages), calls + 1);
  default_model = "m";
  get = λ key cache. (lookup key cache, cache);
  store = insert;
  model_dump = λ message. message;
  round_4 = λ temperature. temperature;
  class_name = λ output_type. "";
  dumps = λ given. first_of given.messages;
  sha256 = λ text. text;
  greater = λ a b. ltb b a;
  has_tool_calls = λ r. false;
  max_temp = 0;
  cache_tool_calls = false;
}

abbrev questions : List Asked
questions = asks "hi" ∷ asks "hi" ∷ asks "bye" ∷ asks "hi" ∷ []

-- Two calls answer the four requests.
cached_calls :
    complete_all cached questions [] 0
    ≡ (ok 1 ∷ ok 1 ∷ ok 2 ∷ ok 1 ∷ [], ("hi", 1) ∷ ("bye", 2) ∷ [], 2)
unfolding complete_all multi_agent_orchestratio.Providers.Cached.complete lookup insert
cached_calls = refl

abbrev Answers : Asked → ℕ → Type 0
Answers asked r = r ≡ answer_to asked.messages

abbrev Made : Asked → Type 0
Made asked = (question : String) × (asked ≡ asks question)

store_adds :
    (key j : String) (stored : ℕ) (cache : Dict ℕ) {r : ℕ}
    → lookup j (insert key stored cache) ≡ some r
    → ((j ≡ key) × (stored ≡ r)) ⊎ (lookup j cache ≡ some r)
store_adds key j stored cache found = elim (Bool-cases (key == j)) [
  | inl same ↦
      let stored_r : some stored ≡ some _ = rw (lookup-insert key j stored cache, same) at found in
      inl (sym ((eq_iff key j).0 same), some_inj stored_r)
  | inr other ↦ inr (rw (lookup-insert key j stored cache, other) at found)
]

cached-IsCache : IsCache cached Answers Made
cached-IsCache = record { get_keeps = λ key j cache found. found; store_adds = store_adds }

cached-Separates : Separates cached Answers Made
unfolding multi_agent_orchestratio.Providers.Cached.key_data
cached-Separates asked other (question, is_asked) (other_question, is_other) same =
    let same_question : question ≡ other_question = rw (is_asked, is_other) at same in
    rw (is_asked, is_other, same_question) refl

map_id : (messages : List String) → map (λ message. message) messages ≡ messages
map_id [] = refl
map_id (message ∷ messages) = ap (λ rest. message ∷ rest) (map_id messages)

cached-IsFaithful : IsFaithful cached Answers Made
cached-IsFaithful = record {
  alike = λ asked other r alike right.
      right
      ∙ (sym (ap answer_to (map_id asked.messages))
          ∙ (ap answer_to alike.same_messages ∙ ap answer_to (map_id other.messages)));
  provider_answers = λ question calls said. sym (ok_inj said);
}

complete_all-AllRight_example :
    AllRight cached Answers Made questions (complete_all cached questions [] 0).0
unfolding lookup
complete_all-AllRight_example =
    complete_all-AllRight cached Answers Made questions [] 0 cached-IsCache
      (("hi", refl), (("hi", refl), (("bye", refl), (("hi", refl), tt)))) cached-Separates
      cached-IsFaithful (λ key. refl)
