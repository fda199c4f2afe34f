-- ===== src/Tests/Memory.antt =====
-- A policy with room for one hot and two warm entries.
use multi_agent_orchestratio.Base.{ℕ, List, [], ◌∷◌}
use multi_agent_orchestratio.Base.{true, ◌≡◌, refl}
use multi_agent_orchestratio.Base.Dict.{lookup}
use multi_agent_orchestratio.Memory.Slru.{MemoryEntry, SlruPolicy, warm, create}
use multi_agent_orchestratio.Memory.Slru.Kept.{has_key}
use multi_agent_orchestratio.Memory.Slru.Bounds.{
  Operation, inserting, accessing, removing, perform_all, IsBounded, create-IsBounded,
}

abbrev entry : MemoryEntry ℕ
entry = record { key = "a"; value = 7; tier = warm; access_count = 0; size_bytes = 0 }

abbrev operations : List (Operation ℕ)
operations =
    inserting "a" entry
    ∷ inserting "b" entry
    ∷ accessing "a"
    ∷ accessing "b"
    ∷ inserting "c" entry
    ∷ inserting "d" entry
    ∷ removing "b"
    ∷ []

create-IsBounded_example : IsBounded (perform_all operations (create 1 2))
create-IsBounded_example = create-IsBounded 1 2 operations

-- A policy with an entry more in each segment than it may have.
abbrev crowded : SlruPolicy ℕ
crowded = record {
  hot_max = 1;
  warm_max = 1;
  hot_entries = ("a", entry) ∷ ("b", entry) ∷ [];
  warm_entries = ("c", entry) ∷ [];
}

c_is_there : has_key "c" crowded.hot_entries crowded.warm_entries ≡ true
unfolding lookup
c_is_there = refl
