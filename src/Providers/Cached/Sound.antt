-- ===== src/Providers/Cached/Sound.antt =====
-- That src/orchestra/providers/cached.py returns answers to what was asked.
use mathlib.Core.Path.{subst}
use multi_agent_orchestratio.Base.{
  not, ◌&&◌, Option, none, some, List, [], ◌∷◌, String, Result, ok, raise, ◌≡◌, refl, sym, ◌⊎◌, inl,
  inr, Bool-cases, ap, map, All,
}
use multi_agent_orchestratio.Providers.Cached.{
  Request, Setup, name_of, model_or, key_data, cache_key, keep, look_up, complete, complete_all,
}

-- The two requests ask for the same: the same dumped messages, model, rounded temperature, limit of
-- tokens, tools and name of the output type.
pub record IsAlike {F M D T O R C W : Type 0} (setup : Setup F M D T O R C W)
    (asked other : Request F M T O) : Type 0 where
  pub same_messages : map setup.model_dump asked.messages ≡ map setup.model_dump other.messages
  pub same_model :
      model_or setup.default_model asked.model ≡ model_or setup.default_model other.model
  pub same_temperature : setup.round_4 asked.temperature ≡ setup.round_4 other.temperature
  pub same_max_tokens : asked.max_tokens ≡ other.max_tokens
  pub same_tools : asked.tools ≡ other.tools
  pub same_output :
      name_of setup.class_name asked.output_type ≡ name_of setup.class_name other.output_type

module _ {F M D T O R C W : Type 0} (setup : Setup F M D T O R C W)
    (Answers : Request F M T O → R → Type 0) (Made : Request F M T O → Type 0) where
  -- The backend gives back only what was stored under the key, or what it had before.
  pub record IsCache : Type 0 where
    pub get_keeps :
        (key j : String) (cache : C) {r : R}
        → (setup.get j (setup.get key cache).1).0 ≡ some r
        → (setup.get j cache).0 ≡ some r
    pub store_adds :
        (key j : String) (stored : R) (cache : C) {r : R}
        → (setup.get j (setup.store key stored cache)).0 ≡ some r
        → ((j ≡ key) × (stored ≡ r)) ⊎ ((setup.get j cache).0 ≡ some r)

  -- Of the requests that are made, the hash of the JSON text tells the data apart.
  abbrev pub Separates : Type 0
  Separates =
      (asked other : Request F M T O)
      → Made asked
      → Made other
      → setup.sha256 (setup.dumps (key_data setup asked))
        ≡ setup.sha256 (setup.dumps (key_data setup other))
      → key_data setup asked ≡ key_data setup other

  -- What answers a request answers one that asks for the same, and the provider answers.
  pub record IsFaithful : Type 0 where
    pub alike :
        (asked other : Request F M T O) (r : R)
        → IsAlike setup asked other
        → Answers asked r
        → Answers other r
    pub provider_answers :
        (request : Request F M T O) (world : W) {r : R}
        → (setup.ask request world).0 ≡ ok r
        → Answers request r

  cache_key-IsAlike :
      (asked other : Request F M T O)
      → Separates
      → Made asked
      → Made other
      → cache_key setup asked ≡ cache_key setup other
      → IsAlike setup asked other
  unfolding cache_key key_data
  cache_key-IsAlike asked other separates made made_other same =
      let same_data = separates asked other made made_other same in
      record {
        same_messages = ap (λ d. d.messages) same_data;
        same_model = ap (λ d. d.model) same_data;
        same_temperature = ap (λ d. d.temperature) same_data;
        same_max_tokens = ap (λ d. d.max_tokens) same_data;
        same_tools = ap (λ d. d.tools) same_data;
        same_output = ap (λ d. d.output_type) same_data;
      }

  -- Each response in the cache answers every made request with its key.
  abbrev pub Holds : C → Type 0
  Holds cache =
      (request : Request F M T O) (r : R)
      → Made request
      → (setup.get (cache_key setup request) cache).0 ≡ some r
      → Answers request r

  abbrev pub Right : Request F M T O → Result R → Type 0
  Right request (ok r) = Answers request r
  Right request (raise e) = Unit

  -- The result of a request is right and the cache holds right responses.
  abbrev Sound : Request F M T O → Result R × C × W → Type 0
  Sound request (result, cache, world) = Right request result × Holds cache

  abbrev pub AllRight : List (Request F M T O) → List (Result R) → Type 0
  AllRight [] results = Unit
  AllRight (request ∷ requests) [] = ⊥
  AllRight (request ∷ requests) (result ∷ results) =
      Right request result × AllRight requests results

  module _ (cache_laws : IsCache) (separates : Separates) (faithful : IsFaithful) where
    store-Holds :
        (asked : Request F M T O) (r : R) (cache : C)
        → Made asked
        → Answers asked r
        → Holds cache
        → Holds (setup.store (cache_key setup asked) r cache)
    store-Holds asked stored cache made right holds request r made_other found =
        elim (cache_laws.store_adds (cache_key setup asked) (cache_key setup request) stored cache
          found) [
            | inl (same, kept) ↦ subst (Answers request) kept (
                faithful.alike asked request stored
                  (cache_key-IsAlike asked request separates made made_other (sym same)) right)
            | inr old ↦ holds request r made_other old
          ]

    keep-Sound :
        (request : Request F M T O) (cache : C) (answer : Result R × W)
        → Made request
        → Right request answer.0
        → Holds cache
        → Sound request (keep setup (cache_key setup request) cache answer)
    unfolding keep
    keep-Sound request cache (raise e, world) made right holds = (tt, holds)
    keep-Sound request cache (ok r, world) made right holds =
        elim (Bool-cases (setup.has_tool_calls r && not setup.cache_tool_calls)) [
          | inl skipped ↦ rw skipped (right, holds)
          | inr stored ↦ rw stored (right, store-Holds request r cache made right holds)
        ]

    asked-Right :
        (request : Request F M T O) (world : W) (result : Result R)
        → (setup.ask request world).0 ≡ result
        → Right request result
    asked-Right request world (ok r) said = faithful.provider_answers request world said
    asked-Right request world (raise e) said = tt

    look_up-Sound :
        (request : Request F M T O) (world : W) (looked : Option R × C)
        → Made request
        → ((r : R) → looked.0 ≡ some r → Answers request r)
        → Holds looked.1
        → Sound request (look_up setup request (cache_key setup request) world looked)
    unfolding look_up
    look_up-Sound request world (some cached, cache) made right holds = (right cached refl, holds)
    look_up-Sound request world (none, cache) made right holds =
        keep-Sound request cache (setup.ask request world) made (asked-Right request world _ refl)
          holds

    complete-Sound :
        (request : Request F M T O) (cache : C) (world : W)
        → Made request
        → Holds cache
        → Sound request (complete setup request cache world)
    unfolding complete
    complete-Sound request cache world made holds =
        elim (Bool-cases (setup.greater request.temperature setup.max_temp)) [
          | inl warm ↦ rw warm (asked-Right request world _ refl, holds)
          | inr cool ↦ rw cool (
              look_up-Sound request world (setup.get (cache_key setup request) cache) made
                (λ r found. holds request r made found)
                (λ other r made_other found. holds other r made_other (
                  cache_laws.get_keeps (cache_key setup request) (cache_key setup other) cache
                    found)))
        ]

    complete_all-Right :
        (requests : List (Request F M T O)) (cache : C) (world : W)
        → All Made requests
        → Holds cache
        → AllRight requests (complete_all setup requests cache world).0
    unfolding complete_all
    complete_all-Right [] cache world made holds = tt
    complete_all-Right (request ∷ requests) cache world made holds =
        let sound = complete-Sound request cache world made.0 holds in
        (sound.0, complete_all-Right requests _ _ made.1 sound.1)

  -- From an empty cache, each of any requests in a row gets an exception of the provider or a
  -- response that answers it, also where an earlier request left it in the cache: if a response to a
  -- request answers those with the same dumped messages, model, rounded temperature, limit of
  -- tokens, tools and name of the output type, and if the hash tells these data of the requests
  -- made apart.
  pub complete_all-AllRight :
      (requests : List (Request F M T O)) (cache : C) (world : W)
      → IsCache
      → All Made requests
      → Separates
      → IsFaithful
      → ((key : String) → (setup.get key cache).0 ≡ none)
      → AllRight requests (complete_all setup requests cache world).0
  complete_all-AllRight requests cache world cache_laws made separates faithful empty =
      complete_all-Right cache_laws separates faithful requests cache world made
        (λ request r made_one found. cc (empty (cache_key setup request)))
