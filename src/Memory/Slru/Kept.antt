-- ===== src/Memory/Slru/Kept.antt =====
-- No entry is lost unnoticed.
use multi_agent_orchestratio.Base.{
  ℕ, Bool, true, false, [], ◌∷◌, ◌++◌, String, ◌==◌, ◌||◌, ◌&&◌, ◌≡◌, arith,
}
use multi_agent_orchestratio.Base.Dict.{Dict, lookup, contains, lookup-insert}
use multi_agent_orchestratio.Base.Dict
use multi_agent_orchestratio.Memory.Slru.{
  Tier, warm, cold, MemoryEntry, SlruPolicy, Evictions, demote_hot, demote_warm, evictions_due,
}

abbrev is_cold : Tier → Bool
is_cold cold = true
is_cold _ = false

-- Whether a key is among the evictions to the cold tier.
abbrev pub went_cold : String → Evictions → Bool
went_cold key [] = false
went_cold key ((k, tier) ∷ evicted) = ((k == key) && is_cold tier) || went_cold key evicted

went_cold-append :
    (key : String) (demoted evicted : Evictions)
    → went_cold key evicted ≡ true
    → went_cold key (demoted ++ evicted) ≡ true
went_cold-append key [] evicted h = h
went_cold-append key ((k, tier) ∷ demoted) evicted h =
    ground (arith, went_cold-append key demoted evicted h)

contains-insert :
    {A : Type 0} (k j : String) (v : A) (d : Dict A)
    → contains j (Dict.insert k v d) ≡ ((k == j) || contains j d)
contains-insert k j v d = rw (lookup-insert k j v d, contains) (ground arith)

module _ {V : Type 0} where
  abbrev pub has_key : String → Dict (MemoryEntry V) → Dict (MemoryEntry V) → Bool
  has_key key hot_entries warm_entries = contains key hot_entries || contains key warm_entries

  demote_hot-has_key :
      (key : String) (hot_max : ℕ) (hot_entries warm_entries : Dict (MemoryEntry V))
      → has_key key hot_entries warm_entries ≡ true
      → let (kept, (grown, _)) = demote_hot hot_max hot_entries warm_entries in
        has_key key kept grown ≡ true
  unfolding demote_hot lookup
  demote_hot-has_key key hot_max [] warm_entries h = h
  demote_hot-has_key key hot_max ((k, e) ∷ hot_entries) warm_entries h =
      let demoted = record e { tier = warm } in
      ground (
        arith,
        demote_hot-has_key key hot_max hot_entries (Dict.insert k demoted warm_entries),
        contains-insert k key demoted warm_entries,
      )

  demote_warm-went_cold :
      (key : String) (warm_max : ℕ) (warm_entries : Dict (MemoryEntry V))
      → contains key warm_entries ≡ true
      → let (kept, evicted) = demote_warm warm_max warm_entries in
        (contains key kept || went_cold key evicted) ≡ true
  unfolding demote_warm lookup
  demote_warm-went_cold key warm_max [] h = cc
  demote_warm-went_cold key warm_max ((k, e) ∷ warm_entries) h =
      ground (arith, demote_warm-went_cold key warm_max warm_entries)

  -- A key that is in the policy when evictions are due is in it afterwards or reported as evicted to
  -- the cold tier.
  pub evictions_due-has_key :
      (key : String) (policy : SlruPolicy V)
      → has_key key policy.hot_entries policy.warm_entries ≡ true
      → let (settled, evicted) = evictions_due policy in
        (has_key key settled.hot_entries settled.warm_entries || went_cold key evicted) ≡ true
  unfolding evictions_due
  evictions_due-has_key key policy h =
      let (kept, (grown, demoted)) =
        demote_hot policy.hot_max policy.hot_entries policy.warm_entries in
      let (warm_kept, evicted) = demote_warm policy.warm_max grown in
      ground (
        arith,
        demote_hot-has_key key policy.hot_max policy.hot_entries policy.warm_entries h,
        demote_warm-went_cold key policy.warm_max grown,
        went_cold-append key demoted evicted,
      )
