-- ===== src/Tprm/Specialist.antt =====
-- src/orchestra_tprm/agents/base.py: how a specialist asks its LLM and what becomes of its failures,
-- and the shim of graph.py. What a specialist makes of the answer is its own code.
pub mod FailsClosed
use multi_agent_orchestratio.Base.{
  Bool, true, false, Option, none, some, List, [], ◌∷◌, ◌++◌, String, not, ◌||◌, ◌==◌, ◌+++◌,
  if◌then◌else◌, Result, ok, raise, Error,
}
use multi_agent_orchestratio.Tprm.Schemas.{Finding, Severity, medium, critical}

-- The content, or "" for none, and whether the finish reason is "safety".
pub record Response : Type 0 where
  pub content : String
  pub is_safety : Bool

-- How `_call_llm` ends: `_SafetySuppressed` is an exception of its own.
pub data Called : Type 0 where
  said : String → Called
  suppressed : Called
  failed : Error → Called

abbrev pub compliance_prefix : String
compliance_prefix =
    "You are operating in a compliance review context. The text you analyse "
    +++ "may include risk-management, legal, or security material. Quoting and "
    +++ "summarising it for compliance purposes is required and permitted.\n\n"

module _ {W : Type 0} (complete : String → W → Result Response × W) where
  read_retry : Result Response → Called
  read_retry (raise e) = failed e
  read_retry (ok response) = if response.content == "" then suppressed else said response.content

  -- The answer to the retry, or that to the first call.
  after_first : String → Result Response × W → Called × W
  unfolding read_retry
  after_first prompt (raise e, world) = (failed e, world)
  after_first prompt (ok response, world) =
      let (retried, after) = complete (compliance_prefix +++ prompt) world in
      if not (response.content == "") || not response.is_safety
      then (said response.content, world)
      else (read_retry retried, after)

  unfoldable pub call_llm : String → W → Called × W
  unfolding after_first
  call_llm prompt world = after_first prompt (complete prompt world)

-- How `_emit_findings` ends.
pub data Emission : Type 0 where
  emitted : List Finding → Emission
  filtered : Emission
  crashed : String → Emission

abbrev pub plain_finding : String → String → Severity → String → String → Finding
plain_finding agent category severity summary id = record {
  agent = agent;
  category = category;
  severity = severity;
  summary = summary;
  id = id;
  exposure_usd_range = none;
  ic_decision = none;
  workstream = none;
}

unfoldable pub suppressed_finding : String → String → Finding
suppressed_finding name id =
    plain_finding name "filter-suppressed" medium
      (name
        +++ " response was suppressed by Gemini safety filters even after compliance-context retry.")
      id

unfoldable pub error_finding : String → String → String → Finding
error_finding name id text = plain_finding name "agent-error" critical text id

-- `run`, which turns a suppressed response into a finding.
unfoldable pub run : String → String → Emission → Emission
unfolding suppressed_finding
run name id (emitted findings) = emitted findings
run name id filtered = emitted (suppressed_finding name id ∷ [])
run name id (crashed text) = crashed text

-- `safe_specialist`: no exception is left.
unfoldable pub safe_specialist : String → String → Emission → List Finding
unfolding suppressed_finding error_finding
safe_specialist name id (emitted findings) = findings
safe_specialist name id filtered = suppressed_finding name id ∷ []
safe_specialist name id (crashed text) = error_finding name id text ∷ []

-- A specialist as the fan-out runs it: its name, the fresh id of its own finding, and its outcome.
pub record Ran : Type 0 where
  pub name : String
  pub id : String
  pub outcome : Emission

-- The findings of all specialists, which `merge_list` joins in the order of the branches.
unfoldable pub all_findings : List Ran → List Finding
unfolding run safe_specialist
all_findings [] = []
all_findings (ran ∷ others) =
    safe_specialist ran.name ran.id (run ran.name ran.id ran.outcome) ++ all_findings others
