-- ===== src/Tests/Tiers.antt =====
-- A manager with room for one warm entry, over dicts as backends.
use multi_agent_orchestratio.Base.{ℕ, none, some, [], ◌∷◌, ◌≡◌, refl}
use multi_agent_orchestratio.Base.Dict.{
  Dict, lookup, insert, erase, lookup-insert_self, lookup-insert, lookup-erase,
}
use multi_agent_orchestratio.Memory.Slru
use multi_agent_orchestratio.Memory.Tiers.{Backends, Manager, store, retrieve}
use multi_agent_orchestratio.Memory.Tiers.Kept.{AreStores, retrieve-store_same}

abbrev dicts : Backends ℕ (Dict ℕ) (Dict ℕ)
dicts = record { get = lookup; set = insert; delete = erase; retrieve = lookup; store = insert }

dicts-AreStores : AreStores dicts
dicts-AreStores = record {
  get-set = lookup-insert_self;
  get-delete = λ k j w. lookup-erase j k w;
  retrieve-store = λ k j v c. lookup-insert j k v c;
}

abbrev small : Manager ℕ (Dict ℕ) (Dict ℕ)
small = record { policy = Slru.create 1 1; warm_backend = some []; cold_backend = some [] }

-- "a" is evicted when "b" comes, and goes to the cold backend.
abbrev evicting : Manager ℕ (Dict ℕ) (Dict ℕ)
evicting = store dicts "a" 1 small

evicted_found : (retrieve dicts "a" (store dicts "b" 2 evicting)).0 ≡ some 1
unfolding retrieve lookup store Slru.create insert erase
evicted_found = refl

retrieve-store_same_example : (retrieve dicts "b" (store dicts "b" 2 evicting)).0 ≡ some 2
unfolding store lookup Slru.create insert
retrieve-store_same_example =
    retrieve-store_same dicts dicts-AreStores "b" 2 (("a", 1) ∷ []) evicting refl

-- Without a warm backend the evicted value is lost, although there is a cold one.
abbrev cold_only : Manager ℕ (Dict ℕ) (Dict ℕ)
cold_only = record small { warm_backend = none }

evicted_lost : (retrieve dicts "a" (store dicts "b" 2 (store dicts "a" 1 cold_only))).0 ≡ none
unfolding retrieve lookup store Slru.create insert
evicted_lost = refl
