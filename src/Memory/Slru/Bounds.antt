-- ===== src/Memory/Slru/Bounds.antt =====
-- The segments stay within their bounds.
use multi_agent_orchestratio.Base.{
  ℕ, suc, ◌≤◌, true, List, [], ◌∷◌, String, ◌≡◌, refl, arith, length, Option-cases, Bool-cases, inl,
  inr,
}
use multi_agent_orchestratio.Base.Dict.{Dict, lookup, contains, erase}
use multi_agent_orchestratio.Base.Dict
use multi_agent_orchestratio.Memory.Slru.{
  MemoryEntry, SlruPolicy, warm, create, demote_hot, demote_warm, evictions_due, access, insert,
  remove, touched,
}

module _ {A : Type 0} where
  length-insert_known :
      (k : String) (v : A) (d : Dict A)
      → contains k d ≡ true
      → length (Dict.insert k v d) ≡ length d
  unfolding Dict.insert lookup
  length-insert_known k v [] h = cc
  length-insert_known k v ((j, w) ∷ d) h = ground (arith, length-insert_known k v d)

  length-insert_le : (k : String) (v : A) (d : Dict A) → length (Dict.insert k v d) ≤ suc (length d)
  unfolding Dict.insert
  length-insert_le k v [] = omega arith
  length-insert_le k v ((j, w) ∷ d) = ground (arith, length-insert_le k v d)

  length-erase_le : (k : String) (d : Dict A) → length (erase k d) ≤ length d
  unfolding erase
  length-erase_le k [] = omega arith
  length-erase_le k ((j, w) ∷ d) = ground (arith, length-erase_le k d)

  length-erase_known :
      (k : String) (d : Dict A) → contains k d ≡ true → suc (length (erase k d)) ≤ length d
  unfolding erase lookup
  length-erase_known k [] h = cc
  length-erase_known k ((j, w) ∷ d) h = ground (arith, length-erase_known k d, length-erase_le k d)

module _ {V : Type 0} where
  pub record IsBounded (policy : SlruPolicy V) : Type 0 where
    pub hot_room : length policy.hot_entries ≤ policy.hot_max
    pub warm_room : length policy.warm_entries ≤ policy.warm_max

  length-demote_hot :
      (hot_max : ℕ) (hot_entries warm_entries : Dict (MemoryEntry V))
      → length (demote_hot hot_max hot_entries warm_entries).0 ≤ hot_max
  unfolding demote_hot
  length-demote_hot hot_max [] warm_entries = omega arith
  length-demote_hot hot_max ((k, e) ∷ hot_entries) warm_entries = ground (
    arith,
    length-demote_hot hot_max hot_entries (Dict.insert k (record e { tier = warm }) warm_entries),
  )

  length-demote_warm :
      (warm_max : ℕ) (warm_entries : Dict (MemoryEntry V))
      → length (demote_warm warm_max warm_entries).0 ≤ warm_max
  unfolding demote_warm
  length-demote_warm warm_max [] = omega arith
  length-demote_warm warm_max ((k, e) ∷ warm_entries) =
      ground (arith, length-demote_warm warm_max warm_entries)

  evictions_due-IsBounded : (policy : SlruPolicy V) → IsBounded (evictions_due policy).0
  unfolding evictions_due
  evictions_due-IsBounded policy = record {
    hot_room = length-demote_hot policy.hot_max policy.hot_entries policy.warm_entries;
    warm_room = length-demote_warm policy.warm_max _;
  }

  access-IsBounded :
      (key : String) (policy : SlruPolicy V) → IsBounded policy → IsBounded (access key policy).1
  unfolding access
  access-IsBounded key policy b = elim (Option-cases (lookup key policy.hot_entries)) [
    | inr (entry, found) ↦
        rw (found, access)
          (record {
            hot_room = omega (
              arith,
              b.hot_room,
              length-erase_known key policy.hot_entries (rw (found, contains) refl),
              length-insert_le key (touched entry) (erase key policy.hot_entries),
            );
            warm_room = b.warm_room;
          })
    | inl absent ↦ elim (Option-cases (lookup key policy.warm_entries)) [
      | inl unknown ↦ rw (absent, unknown, access) b
      | inr (entry, found) ↦ rw (absent, found, access) (evictions_due-IsBounded _)
    ]
  ]

  insert-IsBounded :
      (key : String) (entry : MemoryEntry V) (policy : SlruPolicy V)
      → IsBounded policy
      → IsBounded (insert key entry policy).1
  unfolding insert
  insert-IsBounded key entry policy b = elim (Bool-cases (contains key policy.hot_entries)) [
    | inl found ↦
        rw (found, insert)
          (record {
            hot_room =
                omega (arith, b.hot_room, length-insert_known key entry policy.hot_entries found);
            warm_room = b.warm_room;
          })
    | inr absent ↦ elim (Bool-cases (contains key policy.warm_entries)) [
      | inl found ↦
          rw (absent, found, insert)
            (record {
              hot_room = b.hot_room;
              warm_room =
                  omega
                    (arith, b.warm_room, length-insert_known key entry policy.warm_entries found);
            })
      | inr unknown ↦ rw (absent, unknown, insert) (evictions_due-IsBounded _)
    ]
  ]

  remove-IsBounded :
      (key : String) (policy : SlruPolicy V) → IsBounded policy → IsBounded (remove key policy)
  unfolding remove
  remove-IsBounded key policy b = record {
    hot_room = omega (arith, b.hot_room, length-erase_le key policy.hot_entries);
    warm_room = omega (arith, b.warm_room, length-erase_le key policy.warm_entries);
  }

-- A call of a method.
pub data Operation (V : Type 0) : Type 0 where
  accessing : String → Operation V
  inserting : String → MemoryEntry V → Operation V
  removing : String → Operation V

module _ {V : Type 0} where
  unfoldable pub perform : Operation V → SlruPolicy V → SlruPolicy V
  perform (accessing key) policy = (access key policy).1
  perform (inserting key entry) policy = (insert key entry policy).1
  perform (removing key) policy = remove key policy

  unfoldable pub perform_all : List (Operation V) → SlruPolicy V → SlruPolicy V
  perform_all [] policy = policy
  perform_all (operation ∷ operations) policy = perform_all operations (perform operation policy)

  perform-IsBounded :
      (operation : Operation V) (policy : SlruPolicy V)
      → IsBounded policy
      → IsBounded (perform operation policy)
  unfolding perform
  perform-IsBounded (accessing key) policy b = access-IsBounded key policy b
  perform-IsBounded (inserting key entry) policy b = insert-IsBounded key entry policy b
  perform-IsBounded (removing key) policy b = remove-IsBounded key policy b

  perform_all-IsBounded :
      (operations : List (Operation V)) (policy : SlruPolicy V)
      → IsBounded policy
      → IsBounded (perform_all operations policy)
  unfolding perform_all
  perform_all-IsBounded [] policy b = b
  perform_all-IsBounded (operation ∷ operations) policy b =
      perform_all-IsBounded operations (perform operation policy)
        (perform-IsBounded operation policy b)

  -- After any accesses, insertions and removals on a new policy, in any order, each segment has no
  -- more entries than its maximum.
  pub create-IsBounded :
      (hot_max warm_max : ℕ) (operations : List (Operation V))
      → IsBounded (perform_all operations (create hot_max warm_max))
  create-IsBounded hot_max warm_max operations =
      perform_all-IsBounded operations _
        (unfold create in record { hot_room = omega arith; warm_room = omega arith })
