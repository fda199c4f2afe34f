-- ===== src/Memory/Slru.antt =====
-- `SLRUPolicy` of src/orchestra/memory/tiers.py. An `OrderedDict` is a dict in the order of
-- insertion; the times of creation and access
-- of the entries are left out.
pub mod Bounds
pub mod Kept
use multi_agent_orchestratio.Base.{
  ℕ, suc, ◌+◌, Bool, true, false, Option, none, some, List, [], ◌∷◌, ◌++◌, String, if◌then◌else◌,
  ltb, length,
}
use multi_agent_orchestratio.Base.Dict.{Dict, lookup, contains, erase}
use multi_agent_orchestratio.Base.Dict

pub data Tier : Type 0 where
  hot warm cold : Tier

pub record MemoryEntry (V : Type 0) : Type 0 where
  pub key : String
  pub value : V
  pub tier : Tier
  pub access_count : ℕ
  pub size_bytes : ℕ

pub record SlruPolicy (V : Type 0) : Type 0 where
  pub hot_max : ℕ
  pub warm_max : ℕ
  pub hot_entries : Dict (MemoryEntry V)
  pub warm_entries : Dict (MemoryEntry V)

-- The keys that are demoted, each with its new tier.
abbrev pub Evictions : Type 0
Evictions = List (String × Tier)

module _ {V : Type 0} where
  unfoldable pub create : ℕ → ℕ → SlruPolicy V
  create hot_max warm_max = record {
    hot_max = hot_max;
    warm_max = warm_max;
    hot_entries = [];
    warm_entries = [];
  }

  -- The first loop of `evictions_due`: the hot and warm entries after it, and the demoted keys.
  unfoldable pub demote_hot :
      ℕ
      → Dict (MemoryEntry V)
      → Dict (MemoryEntry V)
      → Dict (MemoryEntry V) × (Dict (MemoryEntry V) × Evictions)
  demote_hot hot_max [] warm_entries = ([], (warm_entries, []))
  demote_hot hot_max ((k, e) ∷ hot_entries) warm_entries =
      let (kept, (grown, evicted)) =
        demote_hot hot_max hot_entries (Dict.insert k (record e { tier = warm }) warm_entries) in
      if ltb hot_max (suc (length hot_entries))
      then (kept, (grown, (k, warm) ∷ evicted))
      else ((k, e) ∷ hot_entries, (warm_entries, []))

  -- The second loop.
  unfoldable pub demote_warm : ℕ → Dict (MemoryEntry V) → Dict (MemoryEntry V) × Evictions
  demote_warm warm_max [] = ([], [])
  demote_warm warm_max ((k, e) ∷ warm_entries) =
      let (kept, evicted) = demote_warm warm_max warm_entries in
      if ltb warm_max (suc (length warm_entries))
      then (kept, (k, cold) ∷ evicted)
      else ((k, e) ∷ warm_entries, [])

  unfoldable pub evictions_due : SlruPolicy V → SlruPolicy V × Evictions
  unfolding demote_hot demote_warm
  evictions_due policy =
      let (hot_kept, (grown, demoted)) =
        demote_hot policy.hot_max policy.hot_entries policy.warm_entries in
      let (warm_kept, evicted) = demote_warm policy.warm_max grown in
      (record policy { hot_entries = hot_kept; warm_entries = warm_kept }, demoted ++ evicted)

  abbrev pub touched : MemoryEntry V → MemoryEntry V
  touched entry = record entry { access_count = entry.access_count + 1 }

  -- The new tier if the entry is promoted, the evictions, and the policy after it.
  unfoldable pub access : String → SlruPolicy V → (Option Tier × Evictions) × SlruPolicy V
  unfolding evictions_due
  access key policy = elim (lookup key policy.hot_entries) [
    | some entry ↦ (
      (none, []),
      record policy {
        hot_entries = Dict.insert key (touched entry) (erase key policy.hot_entries);
      },
    )
    | none ↦ elim (lookup key policy.warm_entries) [
      | none ↦ ((none, []), policy)
      | some entry ↦
          let promoted = record policy {
            hot_entries =
                Dict.insert key (record (touched entry) { tier = hot }) policy.hot_entries;
            warm_entries = erase key policy.warm_entries;
          } in
          let (settled, evicted) = evictions_due promoted in ((some hot, evicted), settled)
    ]
  ]

  unfoldable pub insert : String → MemoryEntry V → SlruPolicy V → Evictions × SlruPolicy V
  unfolding evictions_due
  insert key entry policy =
      if contains key policy.hot_entries
      then ([], record policy { hot_entries = Dict.insert key entry policy.hot_entries })
      else if contains key policy.warm_entries
      then ([], record policy { warm_entries = Dict.insert key entry policy.warm_entries })
      else (let (settled, evicted) = evictions_due (record policy {
        warm_entries = Dict.insert key (record entry { tier = warm }) policy.warm_entries;
      }) in
          (evicted, settled))

  unfoldable pub remove : String → SlruPolicy V → SlruPolicy V
  remove key policy = record policy {
    hot_entries = erase key policy.hot_entries;
    warm_entries = erase key policy.warm_entries;
  }
