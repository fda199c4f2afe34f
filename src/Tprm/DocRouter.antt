-- ===== src/Tprm/DocRouter.antt =====
-- The assignment of the documents to the specialists: `_DocRouter`, `_classify_no_llm` and the
-- completeness gate of src/orchestra_tprm/graph.py. What the LLM's answer parses to is an argument.
pub mod Assigned
use multi_agent_orchestratio.Base.{
  Bool, true, false, not, Option, none, some, List, [], ◌∷◌, ◌++◌, String, ◌==◌, ◌+++◌,
  if◌then◌else◌, any, select, has_text, Result, ok, raise, bind, other_exception,
}
use multi_agent_orchestratio.Base.Dict.{Dict, insert, lookup, contains, get_or}
use multi_agent_orchestratio.Tprm.Schemas.{Finding, low, post_close_monitoring}

-- An entry of the packet's manifest: its path, the last part of the path, and its kind.
pub record Document : Type 0 where
  pub path : String
  pub file_name : String
  pub kind : String

abbrev pub Routing : Type 0
Routing = Dict (List String)

abbrev kind_to_agent_names : Dict (List String)
kind_to_agent_names =
    ("contract", "LegalAgent" ∷ [])
    ∷ ("security_attestation", "SecurityAgent" ∷ [])
    ∷ ("financial_statement", "FinancialAgent" ∷ "LegalAgent" ∷ "SaaSMetricsAgent" ∷ [])
    ∷ ("financial_filing", "FinancialAgent" ∷ "LegalAgent" ∷ "SaaSMetricsAgent" ∷ [])
    ∷ ("source_code", "CodeAgent" ∷ [])
    ∷ ("investor_deck", "FinancialAgent" ∷ "SaaSMetricsAgent" ∷ [])
    ∷ (
      "annual_report",
      "LegalAgent" ∷ "FinancialAgent" ∷ "SecurityAgent" ∷ "SaaSMetricsAgent" ∷ "ESGAgent" ∷ [],
    )
    ∷ ("sustainability_report", "ESGAgent" ∷ [])
    ∷ ("code_of_conduct", "ESGAgent" ∷ [])
    ∷ ("diversity_report", "ESGAgent" ∷ [])
    ∷ ("governance_disclosure", "ESGAgent" ∷ [])
    ∷ ("unknown", "LegalAgent" ∷ "SecurityAgent" ∷ [])
    ∷ []

-- `{n: [] for n in active}`.
unfoldable pub start : List String → Routing → Routing
start [] routing = routing
start (name ∷ active) routing = start active (insert name [] routing)

-- `if s in routing: routing[s].append(doc)`.
unfoldable pub assign : String → String → Routing → Routing
assign doc name routing = elim (lookup name routing) [
  | none ↦ routing
  | some docs ↦ insert name (docs ++ doc ∷ []) routing
]

unfoldable pub assign_all : String → List String → Routing → Routing
unfolding assign
assign_all doc [] routing = routing
assign_all doc (name ∷ names) routing = assign_all doc names (assign doc name routing)

classify_from : List Document → Routing → Routing
unfolding assign_all
classify_from [] routing = routing
classify_from (entry ∷ manifest) routing = classify_from manifest (
    assign_all entry.file_name
      (get_or entry.kind ("LegalAgent" ∷ "SecurityAgent" ∷ []) kind_to_agent_names) routing)

unfoldable pub classify_no_llm : List Document → List String → Routing
unfolding classify_from start
classify_no_llm manifest active = classify_from manifest (start active [])

-- An element of the list under "specialists", as far as it can be a key of the routing.
pub data Name : Type 0 where
  text : String → Name
  -- a number, true, false or null
  other_key : Name
  -- a list or an object, of which `in` cannot look for the hash
  unhashable : Name

-- The value under "specialists", or the empty list for a missing, an empty or a false one: a list,
-- the characters of a text or the keys of an object; or a number or true, with no iteration.
pub data Names : Type 0 where
  iterable : List Name → Names
  not_iterable : Names

-- An object of the LLM's answer: `str` of the document, and the names that it gives for it.
pub record Item : Type 0 where
  pub doc : String
  pub specialists : Names

unfoldable pub assign_names : String → List Name → Routing → Result Routing
unfolding assign
assign_names doc [] routing = ok routing
assign_names doc (text name ∷ names) routing = assign_names doc names (assign doc name routing)
assign_names doc (other_key ∷ names) routing = assign_names doc names routing
assign_names doc (unhashable ∷ names) routing = raise other_exception

unfoldable pub assign_item : String → Names → Routing → Result Routing
unfolding assign_names
assign_item doc (iterable names) routing = assign_names doc names routing
assign_item doc not_iterable routing = raise other_exception

unfoldable pub assign_items : List Item → Routing → Result Routing
unfolding assign_item
assign_items [] routing = ok routing
assign_items (item ∷ items) routing =
    bind (assign_item item.doc item.specialists routing) (assign_items items)

-- The first document goes to every specialist that has none.
unfoldable pub backstop : String → Routing → Routing
backstop first_doc [] = []
backstop first_doc ((name, []) ∷ routing) = (name, first_doc ∷ []) ∷ backstop first_doc routing
backstop first_doc ((name, doc ∷ docs) ∷ routing) = (name, doc ∷ docs) ∷ backstop first_doc routing

with_backstop : List Document → Routing → Routing
unfolding backstop
with_backstop [] routing = routing
with_backstop (first ∷ manifest) routing = backstop first.file_name routing

unfoldable pub route_items : List Document → List String → List Item → Result Routing
unfolding classify_no_llm assign_items start
route_items manifest active [] = ok (classify_no_llm manifest active)
route_items manifest active (item ∷ items) = assign_items (item ∷ items) (start active [])

-- `run` of the router: none for the items is that there is no provider, which returns at once.
unfoldable pub route : List Document → List String → Option (List Item) → Result Routing
unfolding route_items with_backstop
route manifest active none = ok (classify_no_llm manifest active)
route manifest active (some items) =
    bind (route_items manifest active items) λ routing. ok (with_backstop manifest routing)

abbrev drl_keywords : Dict (List String)
drl_keywords =
    (
      "financial_statements",
      "financial" ∷ "10-k" ∷ "10k" ∷ "income" ∷ "balance-sheet" ∷ "p&l" ∷ "annual" ∷ [],
    )
    ∷ (
      "legal_corporate",
      "articles" ∷ "bylaws" ∷ "incorporation" ∷ "corporate" ∷ "minutes" ∷ "consent" ∷ [],
    )
    ∷ (
      "ip_assignments",
      "ip-assignment" ∷ "ip_assignment" ∷ "patent" ∷ "trademark" ∷ "copyright" ∷ "invention" ∷ [],
    )
    ∷ (
      "security_pentest",
      "pentest" ∷ "pen-test" ∷ "penetration" ∷ "soc2" ∷ "soc-2" ∷ "iso27001" ∷ "iso-27001" ∷ [],
    )
    ∷ (
      "cap_table",
      "cap-table" ∷ "captable" ∷ "cap_table" ∷ "shareholder" ∷ "equity-grant" ∷ "option-grant" ∷ [],
    )
    ∷ ("tax_returns", "tax-return" ∷ "tax_return" ∷ "1120" ∷ "k-1" ∷ "form-1120" ∷ "irs" ∷ [])
    ∷ []

module _ (lower with_dashes : String → String) where
  -- A document shows that the category of the keywords is there.
  abbrev pub shows : List String → Document → Bool
  shows keywords entry =
      let haystack = lower entry.path +++ "|" +++ lower entry.kind in
      any (λ keyword. has_text keyword haystack) keywords

  abbrev pub missing_finding : String → Finding
  missing_finding category = record {
    agent = "VDRGate";
    category = "vdr-missing-" +++ with_dashes category;
    severity = low;
    summary =
        "VDR completeness gate: missing document category '" +++ category
        +++ "' -- monitor post-close for follow-up requests.";
    id = "";
    exposure_usd_range = none;
    ic_decision = some post_close_monitoring;
    workstream = some "legal";
  }

  missing_from : Dict (List String) → List Document → List Finding
  missing_from [] manifest = []
  missing_from ((category, keywords) ∷ categories) manifest =
      let rest = missing_from categories manifest in
      if any (shows keywords) manifest then rest else missing_finding category ∷ rest

  -- `_vdr_completeness_check`; the fresh ids of the findings are left out.
  unfoldable pub vdr_completeness_check : List Document → List Finding
  unfolding missing_from
  vdr_completeness_check manifest = missing_from drl_keywords manifest
