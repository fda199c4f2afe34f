-- ===== src/Memory/Tiers/Agrees.antt =====
-- Entries of the policy that hold one value for a key.
use multi_agent_orchestratio.Base.{
  ℕ, suc, true, false, some, [], ◌∷◌, String, ◌==◌, ◌≡◌, sym, ap, ◌∙◌, ltb, length, Bool-cases, inl,
  inr, some_inj,
}
use multi_agent_orchestratio.Base.Dict.{Dict, lookup, contains, insert}
use multi_agent_orchestratio.Memory.Slru.{
  warm, MemoryEntry, SlruPolicy, demote_hot, demote_warm, evictions_due,
}

module _ {V : Type 0} (k : String) (v : V) where
  -- Each entry of the key k holds v.
  abbrev pub Agrees : Dict (MemoryEntry V) → Type 0
  Agrees [] = Unit
  Agrees ((j, e) ∷ entries) = ((j == k) ≡ true → e.value ≡ v) × Agrees entries

  pub Agrees-fresh : (entries : Dict (MemoryEntry V)) → contains k entries ≡ false → Agrees entries
  unfolding lookup
  Agrees-fresh [] h = tt
  Agrees-fresh ((j, e) ∷ entries) h = elim (Bool-cases (j == k)) [
    | inl same ↦ cc (rw (same, lookup) at h)
    | inr other ↦ (λ same. cc (rw other at same), Agrees-fresh entries (rw (other, lookup) at h))
  ]

  pub Agrees-insert :
      (j : String) (e : MemoryEntry V) (entries : Dict (MemoryEntry V))
      → ((j == k) ≡ true → e.value ≡ v)
      → Agrees entries
      → Agrees (insert j e entries)
  unfolding insert
  Agrees-insert j e [] new all = (new, tt)
  Agrees-insert j e ((i, f) ∷ entries) new (old, all) = elim (Bool-cases (i == j)) [
    | inl same ↦ rw (insert, same) (new, all)
    | inr other ↦ rw (insert, other) (old, Agrees-insert j e entries new all)
  ]

  pub Agrees-lookup :
      (entries : Dict (MemoryEntry V)) {e : MemoryEntry V}
      → Agrees entries
      → lookup k entries ≡ some e
      → e.value ≡ v
  unfolding lookup
  Agrees-lookup [] all h = cc
  Agrees-lookup ((j, f) ∷ entries) {e} (first, all) h = elim (Bool-cases (j == k)) [
    | inl same ↦ sym (ap (λ entry. entry.value) (some_inj (rw (same, lookup) at h))) ∙ first same
    | inr other ↦ Agrees-lookup entries {e = e} all (rw (other, lookup) at h)
  ]

  demote_hot-Agrees :
      (hot_max : ℕ) (hot_entries warm_entries : Dict (MemoryEntry V))
      → Agrees hot_entries
      → Agrees warm_entries
      → let (kept, (grown, _)) = demote_hot hot_max hot_entries warm_entries in
        Agrees kept × Agrees grown
  unfolding demote_hot
  demote_hot-Agrees hot_max [] warm_entries hots warms = (tt, warms)
  demote_hot-Agrees hot_max ((j, e) ∷ hot_entries) warm_entries (first, hots) warms =
      elim (Bool-cases (ltb hot_max (suc (length hot_entries)))) [
        | inl over ↦
            rw (demote_hot, over)
              (demote_hot-Agrees hot_max hot_entries
                (insert j (record e { tier = warm }) warm_entries) hots
                (Agrees-insert j (record e { tier = warm }) warm_entries first warms))
        | inr fits ↦ rw (demote_hot, fits) ((first, hots), warms)
      ]

  demote_warm-Agrees :
      (warm_max : ℕ) (warm_entries : Dict (MemoryEntry V))
      → Agrees warm_entries
      → Agrees (demote_warm warm_max warm_entries).0
  unfolding demote_warm
  demote_warm-Agrees warm_max [] all = tt
  demote_warm-Agrees warm_max ((j, e) ∷ warm_entries) (first, all) =
      elim (Bool-cases (ltb warm_max (suc (length warm_entries)))) [
        | inl over ↦ rw (demote_warm, over) (demote_warm-Agrees warm_max warm_entries all)
        | inr fits ↦ rw (demote_warm, fits) (first, all)
      ]

  pub evictions_due-Agrees :
      (policy : SlruPolicy V)
      → Agrees policy.hot_entries
      → Agrees policy.warm_entries
      → let settled = (evictions_due policy).0 in
        Agrees settled.hot_entries × Agrees settled.warm_entries
  unfolding evictions_due
  evictions_due-Agrees policy hots warms =
      let (kept, grown) =
        demote_hot-Agrees policy.hot_max policy.hot_entries policy.warm_entries hots warms in
      (kept, demote_warm-Agrees policy.warm_max _ grown)
