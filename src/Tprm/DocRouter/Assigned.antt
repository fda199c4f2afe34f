-- ===== src/Tprm/DocRouter/Assigned.antt =====
-- Who gets a document in the routing of src/orchestra_tprm/graph.py.
use multi_agent_orchestratio.Base.{
  Bool, true, false, Option, none, some, List, [], ◌∷◌, String, ◌==◌, any, ◌≡◌, All,
}
use multi_agent_orchestratio.Base.Dict.{contains}
use multi_agent_orchestratio.Tprm.DocRouter.{
  Routing, Names, text, other_key, unhashable, iterable, not_iterable,
}

-- The routing has a list for exactly the names in the test.
abbrev KeysAre : (String → Bool) → Routing → Type 0
KeysAre names routing = (name : String) → contains name routing ≡ names name

abbrev is_active : List String → String → Bool
is_active active name = any (λ a. a == name) active

-- The names can be iterated and looked up.
abbrev pub IsUsable : Names → Type 0
IsUsable (iterable names) =
    All (λ name. elim name [ text _ ↦ Unit | other_key ↦ Unit | unhashable ↦ ⊥ ]) names
IsUsable not_iterable = ⊥

-- `docs or [first]`.
abbrev filled : String → List String → List String
filled first_doc [] = first_doc ∷ []
filled first_doc (doc ∷ docs) = doc ∷ docs

fill : String → Option (List String) → Option (List String)
fill first_doc none = none
fill first_doc (some docs) = some (filled first_doc docs)

-- The list of an active specialist, and none of another.
abbrev pub IsAssigned : Bool → Option (List String) → Type 0
IsAssigned true docs = (doc : String) × (rest : List String) × (docs ≡ some (doc ∷ rest))
IsAssigned false docs = docs ≡ none
