-- ===== src/Providers/Cached.antt =====
-- `CachedProvider` of src/orchestra/providers/cached.py over a backend of cache/backends.py. The
-- backends are third-party caches, so a backend is a parameter, and so are the provider and what
-- the cache key takes from Python's library and pydantic.
pub mod Sound
use multi_agent_orchestratio.Base.{
  ℕ, Bool, true, false, not, ◌&&◌, Option, none, some, List, [], ◌∷◌, map, String, Result, ok,
  raise, if◌then◌else◌, ◌==◌,
}

-- The arguments of `complete`, with floats, messages, tools and output types of any types.
pub record Request (F M T O : Type 0) : Type 0 where
  pub messages : List M
  pub model : Option String
  pub tools : Option T
  pub temperature : F
  pub max_tokens : Option ℕ
  pub output_type : Option O

-- `key_data`, where a message is what `model_dump(exclude={"metadata"})` gives.
pub record KeyData (F D T : Type 0) : Type 0 where
  pub messages : List D
  pub model : String
  pub temperature : F
  pub max_tokens : Option ℕ
  pub tools : Option T
  pub output_type : Option String

-- A provider and a cache for responses of type R; C is the state of the cache and W the world.
pub record Setup (F M D T O R C W : Type 0) : Type 0 where
  -- `self._provider.complete` and `self.default_model`.
  pub ask : Request F M T O → W → Result R × W
  pub default_model : String
  -- `self._cache.get` and `self._cache.set`, with the provider's time to live.
  pub get : String → C → Option R × C
  pub store : String → R → C → C
  -- `m.model_dump(exclude={"metadata"})`, `round(x, 4)`, `output_type.__name__`, the JSON text of the
  -- data with sorted keys, and `hashlib.sha256(...).hexdigest()`.
  pub model_dump : M → D
  pub round_4 : F → F
  pub class_name : O → String
  pub dumps : KeyData F D T → String
  pub sha256 : String → String
  -- `x > y`, and `bool(result.tool_calls)`.
  pub greater : F → F → Bool
  pub has_tool_calls : R → Bool
  pub max_temp : F
  pub cache_tool_calls : Bool

-- `output_type.__name__ if output_type else None`.
abbrev pub name_of : {O : Type 0} → (O → String) → Option O → Option String
name_of class_name none = none
name_of class_name (some output_type) = some (class_name output_type)

-- `model or self.default_model`.
abbrev pub model_or : String → Option String → String
model_or default none = default
model_or default (some model) = if model == "" then default else model

module _ {F M D T O R C W : Type 0} (setup : Setup F M D T O R C W) where
  unfoldable pub key_data : Request F M T O → KeyData F D T
  key_data request = record {
    messages = map setup.model_dump request.messages;
    model = model_or setup.default_model request.model;
    temperature = setup.round_4 request.temperature;
    max_tokens = request.max_tokens;
    tools = request.tools;
    output_type = name_of setup.class_name request.output_type;
  }

  -- `_cache_key`.
  unfoldable pub cache_key : Request F M T O → String
  unfolding key_data
  cache_key request = setup.sha256 (setup.dumps (key_data request))

  -- What follows the provider's answer: it is stored, unless it has tool calls that are not cached.
  unfoldable pub keep : String → C → Result R × W → Result R × C × W
  keep key cache (raise e, world) = (raise e, cache, world)
  keep key cache (ok result, world) =
      if setup.has_tool_calls result && not setup.cache_tool_calls
      then (ok result, cache, world)
      else (ok result, setup.store key result cache, world)

  -- The lookup: the cached response, or the provider's.
  unfoldable pub look_up : Request F M T O → String → W → Option R × C → Result R × C × W
  unfolding keep
  look_up request key world (some cached, cache) = (ok cached, cache, world)
  look_up request key world (none, cache) = keep key cache (setup.ask request world)

  unfoldable pub complete : Request F M T O → C → W → Result R × C × W
  unfolding look_up cache_key
  complete request cache world =
      if setup.greater request.temperature setup.max_temp
      then (let (result, after) = setup.ask request world in (result, cache, after))
      else look_up request (cache_key request) world (setup.get (cache_key request) cache)

  -- One request after the other, with what each gets.
  unfoldable pub complete_all : List (Request F M T O) → C → W → List (Result R) × C × W
  complete_all [] cache world = ([], cache, world)
  complete_all (request ∷ requests) cache world =
      let (result, cache', world') = complete request cache world in
      let (results, last_cache, last_world) = complete_all requests cache' world' in
      (result ∷ results, last_cache, last_world)
