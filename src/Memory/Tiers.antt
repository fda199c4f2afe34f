-- ===== src/Memory/Tiers.antt =====
-- `TieredMemoryManager` of src/orchestra/memory/tiers.py, as one coroutine runs it: the policy's
-- entries, a warm backend and a cold one. The backends are clients of external stores, parameters
-- with the operations that are called here; the embedding that goes with a cold entry is left out.
pub mod Agrees
pub mod Kept
use multi_agent_orchestratio.Base.{
  ℕ, Bool, true, false, Option, none, some, List, [], ◌∷◌, String, if◌then◌else◌,
}
use multi_agent_orchestratio.Base.Dict.{lookup}
use multi_agent_orchestratio.Memory.Slru.{
  Tier, hot, warm, cold, MemoryEntry, SlruPolicy, Evictions, remove,
}
use multi_agent_orchestratio.Memory.Slru

-- What the manager calls of a warm backend and of a cold one, each with a state.
pub record Backends (V W C : Type 0) : Type 0 where
  pub get : String → W → Option V
  pub set : String → V → W → W
  pub delete : String → W → W
  pub retrieve : String → C → Option V
  pub store : String → V → C → C

pub record Manager (V W C : Type 0) : Type 0 where
  pub policy : SlruPolicy V
  pub warm_backend : Option W
  pub cold_backend : Option C

-- An operation on a backend, if there is one.
abbrev pub on_backend : {A : Type 0} → (A → A) → Option A → Option A
on_backend f none = none
on_backend f (some backend) = some (f backend)

abbrev pub ask : {A V : Type 0} → (A → Option V) → Option A → Option V
ask f none = none
ask f (some backend) = f backend

-- `MemoryEntry(key=..., value=...)`.
abbrev pub new_entry : {V : Type 0} → String → V → Tier → MemoryEntry V
new_entry key value tier = record {
  key = key;
  value = value;
  tier = tier;
  access_count = 0;
  size_bytes = 0;
}

module _ {V W C : Type 0} (backends : Backends V W C) where
  -- `retrieve(key, promote=False)`: hot, warm, the warm backend and the cold one.
  unfoldable pub find : String → Manager V W C → Option V
  find key m = elim (lookup key m.policy.hot_entries) [
    | some entry ↦ some entry.value
    | none ↦ elim (lookup key m.policy.warm_entries) [
      | some entry ↦ some entry.value
      | none ↦ elim (ask (backends.get key) m.warm_backend) [
        | some value ↦ some value
        | none ↦ ask (backends.retrieve key) m.cold_backend
      ]
    ]
  ]

  -- `demote(key, Tier.COLD)`, for a value that was found and a cold backend.
  unfoldable pub to_cold : String → V → C → Manager V W C → Manager V W C
  unfolding remove
  to_cold key value cold_store m = record {
    policy = remove key m.policy;
    warm_backend = on_backend (backends.delete key) m.warm_backend;
    cold_backend = some (backends.store key value cold_store);
  }

  -- A value that was found, if it was, moves to the cold backend, if there is one.
  unfoldable pub move_to_cold : String → Option C → Option V → Manager V W C → Manager V W C
  unfolding to_cold
  move_to_cold key none found m = m
  move_to_cold key (some cold_store) none m = m
  move_to_cold key (some cold_store) (some value) m = to_cold key value cold_store m

  unfoldable pub demote : String → Tier → Manager V W C → Manager V W C
  unfolding find move_to_cold
  demote key hot m = m
  demote key warm m = m
  demote key cold m = move_to_cold key m.cold_backend (find key m) m

  unfoldable pub handle_evictions : Evictions → Manager V W C → Manager V W C
  unfolding demote
  handle_evictions [] m = m
  handle_evictions ((key, target_tier) ∷ evictions) m =
      handle_evictions evictions (demote key target_tier m)

  unfoldable pub store : String → V → Manager V W C → Manager V W C
  unfolding handle_evictions Slru.insert
  store key value m =
      let (evictions, policy) = Slru.insert key (new_entry key value warm) m.policy in
      handle_evictions evictions (record m {
        policy = policy;
        warm_backend = on_backend (backends.set key value) m.warm_backend;
      })

  -- A value of the policy's own entries is accessed.
  unfoldable pub touch : String → Manager V W C → Manager V W C
  unfolding handle_evictions Slru.access
  touch key m =
      let ((_, evictions), policy) = Slru.access key m.policy in
      handle_evictions evictions (record m { policy = policy })

  -- A value from a backend goes into the policy. The evictions of the access are dropped.
  unfoldable pub bring_in : String → V → Manager V W C → Manager V W C
  unfolding handle_evictions Slru.insert Slru.access
  bring_in key value m =
      let (evictions, inserted) = Slru.insert key (new_entry key value hot) m.policy in
      let (_, policy) = Slru.access key inserted in
      handle_evictions evictions (record m { policy = policy })

  -- `retrieve(key, promote=True)`.
  unfoldable pub retrieve : String → Manager V W C → Option V × Manager V W C
  unfolding touch bring_in
  retrieve key m = elim (lookup key m.policy.hot_entries) [
    | some entry ↦ (some entry.value, touch key m)
    | none ↦ elim (lookup key m.policy.warm_entries) [
      | some entry ↦ (some entry.value, touch key m)
      | none ↦ elim (ask (backends.get key) m.warm_backend) [
        | some value ↦ (some value, bring_in key value m)
        | none ↦ elim (ask (backends.retrieve key) m.cold_backend) [
          | none ↦ (none, m)
          | some value ↦
              let brought = bring_in key value m in
              (
                some value,
                record brought {
                  warm_backend = on_backend (backends.set key value) brought.warm_backend;
                },
              )
        ]
      ]
    ]
  ]

  -- `promote(key, to_tier)`.
  unfoldable pub promote : String → Tier → Manager V W C → Manager V W C
  unfolding retrieve
  promote key hot m = (retrieve key m).1
  promote key warm m = m
  promote key cold m = m
