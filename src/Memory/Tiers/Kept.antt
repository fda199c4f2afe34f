-- ===== src/Memory/Tiers/Kept.antt =====
-- That the manager finds again what it stored.
use multi_agent_orchestratio.Base.{
  false, Option, none, some, [], ◌∷◌, String, if◌then◌else◌, ◌==◌, ◌≡◌, refl, sym, ap, ◌∙◌,
  Bool-cases, Option-cases, inl, inr, eq_iff, arith, is_some,
}
use multi_agent_orchestratio.Base.Dict.{
  Dict, lookup, contains, erase, lookup-erase, lookup-insert_self,
}
use multi_agent_orchestratio.Base.Dict
use multi_agent_orchestratio.Memory.Slru.{
  Tier, hot, warm, cold, MemoryEntry, SlruPolicy, Evictions, remove, demote_hot, demote_warm,
  evictions_due,
}
use multi_agent_orchestratio.Memory.Slru
use multi_agent_orchestratio.Memory.Tiers.Agrees.{
  Agrees, Agrees-fresh, Agrees-insert, Agrees-lookup, evictions_due-Agrees,
}
use multi_agent_orchestratio.Memory.Tiers.{
  Backends, Manager, on_backend, ask, new_entry, find, to_cold, move_to_cold, demote,
  handle_evictions, store, retrieve,
}

-- What a client may expect of the two backends: a key that was set is found, one that was deleted is
-- not, and other keys are left alone.
pub record AreStores {V W C : Type 0} (backends : Backends V W C) : Type 0 where
  pub get-set : (k : String) (v : V) (w : W) → backends.get k (backends.set k v w) ≡ some v
  pub get-delete :
      (k j : String) (w : W)
      → backends.get k (backends.delete j w) ≡ (if j == k then none else backends.get k w)
  pub retrieve-store :
      (k j : String) (v : V) (c : C)
      → backends.retrieve k (backends.store j v c)
        ≡ (if j == k then some v else backends.retrieve k c)

-- The first value there is, of the two segments and of the two backends.
abbrev pick :
    {V : Type 0} → Option (MemoryEntry V) → Option (MemoryEntry V) → Option V → Option V → Option V
pick (some entry) warm_entry warm_value cold_value = some entry.value
pick none (some entry) warm_value cold_value = some entry.value
pick none none (some value) cold_value = some value
pick none none none cold_value = cold_value

none_of_no_value : {A : Type 0} (o : Option A) → is_some o ≡ false → o ≡ none
none_of_no_value none h = refl
none_of_no_value (some a) h = cc

module _ {V W C : Type 0} (backends : Backends V W C) where
  find-pick :
      (k : String) (m : Manager V W C)
      → find backends k m
        ≡ pick
            (lookup k m.policy.hot_entries)
            (lookup k m.policy.warm_entries)
            (ask (backends.get k) m.warm_backend)
            (ask (backends.retrieve k) m.cold_backend)
  unfolding find
  find-pick k m = ground arith

module _ {V W C : Type 0} (backends : Backends V W C) (are_stores : AreStores backends) (k : String)
    (v : V) where
  ask-delete :
      (j : String) (w : Option W)
      → ask (backends.get k) (on_backend (backends.delete j) w)
        ≡ (if j == k then none else ask (backends.get k) w)
  ask-delete j none = ground arith
  ask-delete j (some w) = are_stores.get-delete k j w

  to_cold-find :
      (j : String) (value : V) (cold_store : C) (m : Manager V W C)
      → m.cold_backend ≡ some cold_store
      → find backends j m ≡ some value
      → find backends k m ≡ some v
      → find backends k (to_cold backends j value cold_store m) ≡ some v
  unfolding to_cold remove
  to_cold-find j value cold_store m given found holds =
      rw
        (
          find-pick backends k (to_cold backends j value cold_store m),
          lookup-erase j k m.policy.hot_entries,
          lookup-erase j k m.policy.warm_entries,
          ask-delete j m.warm_backend,
          are_stores.retrieve-store k j value cold_store,
        )
        (elim (Bool-cases (j == k)) [
          | inl same ↦
              let moved : j ≡ k = (eq_iff j k).0 same in
              rw same (sym (ap (λ key. find backends key m) (sym moved) ∙ found) ∙ holds)
          | inr other ↦
              rw (other, ← ap (λ c. ask (backends.retrieve k) c) given)
                (sym (find-pick backends k m) ∙ holds)
        ])

  move_to_cold-find :
      (j : String) (cold_store : Option C) (found : Option V) (m : Manager V W C)
      → m.cold_backend ≡ cold_store
      → find backends j m ≡ found
      → find backends k m ≡ some v
      → find backends k (move_to_cold backends j cold_store found m) ≡ some v
  unfolding move_to_cold
  move_to_cold-find j none found m given same holds = holds
  move_to_cold-find j (some cold_store) none m given same holds = holds
  move_to_cold-find j (some cold_store) (some value) m given same holds =
      to_cold-find j value cold_store m given same holds

  demote-find :
      (j : String) (tier : Tier) (m : Manager V W C)
      → find backends k m ≡ some v
      → find backends k (demote backends j tier m) ≡ some v
  unfolding demote
  demote-find j hot m holds = holds
  demote-find j warm m holds = holds
  demote-find j cold m holds =
      move_to_cold-find j m.cold_backend (find backends j m) m refl refl holds

  handle_evictions-find :
      (evictions : Evictions) (m : Manager V W C)
      → find backends k m ≡ some v
      → find backends k (handle_evictions backends evictions m) ≡ some v
  unfolding handle_evictions
  handle_evictions-find [] m holds = holds
  handle_evictions-find ((j, tier) ∷ evictions) m holds =
      handle_evictions-find evictions (demote backends j tier m) (demote-find j tier m holds)

  pick-Agrees :
      (hot_entries warm_entries : Dict (MemoryEntry V)) (cold_value : Option V)
      → Agrees k v hot_entries
      → Agrees k v warm_entries
      → pick (lookup k hot_entries) (lookup k warm_entries) (some v) cold_value ≡ some v
  pick-Agrees hot_entries warm_entries cold_value hots warms =
      elim (Option-cases (lookup k hot_entries)) [
        | inr (e, found) ↦ rw found (ap some (Agrees-lookup k v hot_entries {e = e} hots found))
        | inl not_hot ↦ elim (Option-cases (lookup k warm_entries)) [
          | inr (e, found) ↦
              rw (not_hot, found) (ap some (Agrees-lookup k v warm_entries {e = e} warms found))
          | inl not_warm ↦ rw (not_hot, not_warm) refl
        ]
      ]

  -- Whatever the insertion evicts, the policy holds the new value or none.
  insert-pick :
      (entry : MemoryEntry V) (policy : SlruPolicy V) (cold_value : Option V)
      → entry.value ≡ v
      → let policy' = (Slru.insert k entry policy).1 in
        pick (lookup k policy'.hot_entries) (lookup k policy'.warm_entries) (some v) cold_value
        ≡ some v
  unfolding Slru.insert
  insert-pick entry policy cold_value same = elim (Bool-cases (contains k policy.hot_entries)) [
    | inl is_hot ↦
        rw (Slru.insert, is_hot) (rw (lookup-insert_self k entry policy.hot_entries) (ap some same))
    | inr not_hot ↦ elim (Bool-cases (contains k policy.warm_entries)) [
      | inl is_warm ↦
          rw (Slru.insert, not_hot, is_warm, none_of_no_value (lookup k policy.hot_entries) not_hot)
            (rw (lookup-insert_self k entry policy.warm_entries) (ap some same))
      | inr new ↦
          let inserted = record policy {
            warm_entries = Dict.insert k (record entry { tier = warm }) policy.warm_entries;
          } in
          let (hots, warms) =
            evictions_due-Agrees k v inserted (Agrees-fresh k v policy.hot_entries not_hot) (
              Agrees-insert k v k (record entry { tier = warm }) policy.warm_entries (λ _. same)
                (Agrees-fresh k v policy.warm_entries new)) in
          rw (Slru.insert, not_hot, new) (pick-Agrees _ _ cold_value hots warms)
    ]
  ]

  -- What was stored is found, once the evictions are handled.
  store-find :
      (w : W) (m : Manager V W C)
      → m.warm_backend ≡ some w
      → find backends k (store backends k v m) ≡ some v
  unfolding store
  store-find w m given =
      let (evictions, policy) = Slru.insert k (new_entry k v warm) m.policy in
      let inserted : Manager V W C = record m {
        policy = policy;
        warm_backend = on_backend (backends.set k v) m.warm_backend;
      } in
      let set_value : ask (backends.get k) inserted.warm_backend ≡ some v =
        ap (λ o. ask (backends.get k) (on_backend (backends.set k v) o)) given
        ∙ are_stores.get-set k v w in
      handle_evictions-find evictions inserted (
        find-pick backends k inserted
        ∙ (ap
              (λ warm_value.
                pick (lookup k policy.hot_entries) (lookup k policy.warm_entries) warm_value
                  (ask (backends.retrieve k) m.cold_backend))
              set_value
            ∙ insert-pick (new_entry k v warm) m.policy _ refl))

  retrieve-find : (m : Manager V W C) → (retrieve backends k m).0 ≡ find backends k m
  unfolding retrieve find
  retrieve-find m = elim (Option-cases (lookup k m.policy.hot_entries)) [
    | inr (e, found) ↦ rw (retrieve, find, found) refl
    | inl not_hot ↦ elim (Option-cases (lookup k m.policy.warm_entries)) [
      | inr (e, found) ↦ rw (retrieve, find, not_hot, found) refl
      | inl not_warm ↦ elim (Option-cases (ask (backends.get k) m.warm_backend)) [
        | inr (value, found) ↦ rw (retrieve, find, not_hot, not_warm, found) refl
        | inl not_set ↦ elim (Option-cases (ask (backends.retrieve k) m.cold_backend)) [
          | inr (value, found) ↦ rw (retrieve, find, not_hot, not_warm, not_set, found) refl
          | inl missing ↦ rw (retrieve, find, not_hot, not_warm, not_set, missing) refl
        ]
      ]
    ]
  ]

  -- With a warm backend, a value that was stored is retrieved, in whatever tier its key was before
  -- and whichever keys its insertion evicts, the key itself included.
  pub retrieve-store_same :
      (w : W) (m : Manager V W C)
      → m.warm_backend ≡ some w
      → (retrieve backends k (store backends k v m)).0 ≡ some v
  retrieve-store_same w m given = retrieve-find (store backends k v m) ∙ store-find w m given
