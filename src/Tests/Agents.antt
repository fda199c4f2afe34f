-- ===== src/Tests/Agents.antt =====
-- An agent whose LLM asks for two tools, of which one is not allowed, and then answers. The outside
-- world counts the calls of the LLM and of the two tools.
use multi_agent_orchestratio.Base.{
  ℕ, suc, ◌+◌, ◌*◌, ◌≤◌, ◌==◌, true, false, Bool, Option, none, some, List, [], ◌∷◌, String, ok,
  raise, Result, ◌≡◌, refl, arith, ltb, leb, truthy, length, if◌then◌else◌, Bool-cases, inl, inr,
  some_inj, ok_inj, eq_iff,
}
use multi_agent_orchestratio.Base.Floats.{Floats}
use multi_agent_orchestratio.Security.Acl.{allow_list, is_authorized}
use multi_agent_orchestratio.Cost.Budget.{BudgetPolicy}
use multi_agent_orchestratio.Cost.Aggregator.{CostAggregator, get_totals}
use multi_agent_orchestratio.Core.Agent.{
  Agent, Tool, Execution, Complete, Context, Library, AgentState,
}
use multi_agent_orchestratio.Core.Agent.Types.{
  user_role, assistant_role, AgentResult, TokenUsage, Message, LlmResponse, ToolCall,
}
use multi_agent_orchestratio.Core.Agent.Messages.{text, messages, plain_message}
use multi_agent_orchestratio.Core.Agent.Tools.{find_tool}
use multi_agent_orchestratio.Core.Agent.Loop.{run, Outcome, iterate, initial_state}
use multi_agent_orchestratio.Core.Agent.Answered.{checked, run-checked}
use multi_agent_orchestratio.Core.Agent.Authority.{ToolsKeep, ProviderKeeps, run-authority}
use multi_agent_orchestratio.Core.Agent.Bounds.{CountsCalls, run-calls}
use multi_agent_orchestratio.Core.Agent.Spending.{IsMetered, limited, run-limited}
use multi_agent_orchestratio.Security.Guardrails.{OnFail, Guardrail}
use multi_agent_orchestratio.Security.Guardrails.Guarded.{GuardedAgent}
use multi_agent_orchestratio.Security.Guardrails.Guarded
use multi_agent_orchestratio.Security.Guardrails.Guarded.Released.{IsReleased, run-IsReleased}

abbrev pub cents : Floats
cents = record {
  F = ℕ;
  zero = 0;
  add = λ a b. a + b;
  times = λ n a. n * a;
  geq = λ a b. leb b a;
  mul = λ a b. a * b;
  ratio = λ a b. a;
}

abbrev library : Library ℕ
library = record {
  fnmatch = λ name pattern. name == pattern;
  loads = λ text. none;
  past = λ time. false;
  same_arguments = λ a b. leb a b;
  show_names = λ names. "";
}

-- The calls of the LLM, of `search` and of `delete`.
abbrev World : Type 0
World = ℕ × ℕ × ℕ

abbrev search : Tool ℕ World
search = record {
  name = "search";
  execute = λ arguments world. (
    Execution.returned
        (record { tool_call_id = ""; name = "search"; content = "found"; error = none }),
    (world.0, suc world.1, world.2),
  );
}

abbrev delete : Tool ℕ World
delete = record {
  name = "delete";
  execute = λ arguments world. (Execution.failed "disk error", (world.0, world.1, suc world.2));
}

-- The first response asks for both tools, the second is the answer.
abbrev usage : TokenUsage ℕ
usage = record { input_tokens = 30; output_tokens = 10; total_tokens = 40; estimated_cost_usd = 1 }

abbrev both_tools : List (ToolCall ℕ)
both_tools =
    record { id = "c1"; name = "search"; arguments = 1 }
    ∷ record { id = "c2"; name = "delete"; arguments = 2 }
    ∷ []

abbrev response_to : List (Message ℕ) → LlmResponse ℕ ℕ
response_to history = record {
  content = some "done";
  tool_calls = if leb (length history) 2 then both_tools else [];
  usage = some usage;
  model = "m";
}

abbrev complete : Complete ℕ ℕ World
complete history world = (ok (response_to history), (suc world.0, world.1, world.2))

abbrev researcher : Agent ℕ ℕ World
researcher = record {
  name = "researcher";
  model = some "m";
  system_prompt = "You search.";
  tools = search ∷ delete ∷ [];
  acl = some (allow_list ("search" ∷ []));
  max_iterations = 3;
  output_type = none;
}

abbrev policy : BudgetPolicy ℕ
policy = record {
  soft_limit_usd = none;
  hard_limit_usd = none;
  soft_limit_tokens = none;
  hard_limit_tokens = some 50;
  downgrade_model = none;
}

abbrev context : Context ℕ ℕ World
context = record {
  provider = some complete;
  run_id = "run";
  replay_mode = false;
  replay_events = [];
  has_event_bus = true;
  budget_policy = some policy;
}

abbrev aggregator : CostAggregator ℕ
aggregator = record { registry = []; runs = [] }

abbrev outcome : Outcome ℕ ℕ ℕ × AgentState ℕ ℕ World
outcome = run cents library researcher context (text "find it") false (some aggregator) (0, 0, 0)

world_after : outcome.1.world ≡ (2, 1, 0)
unfolding run multi_agent_orchestratio.Base.Dict.lookup allow_list
    multi_agent_orchestratio.Base.Dict.insert
world_after = refl

spent_after : outcome.1.total_usage.total_tokens ≡ 80
unfolding run multi_agent_orchestratio.Base.Dict.lookup allow_list
    multi_agent_orchestratio.Base.Dict.insert
spent_after = refl

abbrev NoneDeleted : World → Type 0
NoneDeleted world = world.2 ≡ 0

provider-keeps : ProviderKeeps cents library researcher context NoneDeleted
provider-keeps other given history world none_deleted = rw (← some_inj given) none_deleted

tools-keep : ToolsKeep cents library researcher context NoneDeleted
unfolding find_tool is_authorized allow_list
tools-keep name tool found allowed arguments world none_deleted =
    elim (Bool-cases ("search" == name)) [
      | inl is_search ↦ rw (← some_inj (rw (is_search, find_tool) at found)) none_deleted
      | inr no_search ↦ elim (Bool-cases ("delete" == name)) [
        | inl is_delete ↦ cc (rw (← (eq_iff "delete" name).0 is_delete) at allowed)
        | inr neither ↦ cc (rw (no_search, neither, find_tool) at found)
      ]
    ]

run-authority_example : NoneDeleted outcome.1.world
run-authority_example =
    run-authority cents library researcher context NoneDeleted (text "find it") false
      (some aggregator) (0, 0, 0) provider-keeps tools-keep refl

abbrev llm_calls : World → ℕ
llm_calls world = world.0

tools-count : (n : ℕ) → ToolsKeep cents library researcher context (λ world. llm_calls world ≤ n)
unfolding find_tool
tools-count n name tool found allowed arguments world few = elim (Bool-cases ("search" == name)) [
  | inl is_search ↦ rw (← some_inj (rw (is_search, find_tool) at found)) few
  | inr no_search ↦ elim (Bool-cases ("delete" == name)) [
    | inl is_delete ↦ rw (← some_inj (rw (no_search, is_delete, find_tool) at found)) few
    | inr neither ↦ cc (rw (no_search, neither, find_tool) at found)
  ]
]

calls-count : CountsCalls cents library researcher context llm_calls
calls-count = (λ other history world given. rw (← some_inj given) (omega arith), tools-count)

run-calls_example : llm_calls outcome.1.world ≤ llm_calls (0, 0, 0) + 3
run-calls_example =
    run-calls cents library researcher context llm_calls (text "find it") false (some aggregator)
      (0, 0, 0) calls-count

-- Each response has 40 tokens.
abbrev spent : World → ℕ
spent world = 40 * llm_calls world

tools-spend : (n : ℕ) → ToolsKeep cents library researcher context (λ world. spent world ≡ n)
unfolding find_tool
tools-spend n name tool found allowed arguments world same = elim (Bool-cases ("search" == name)) [
  | inl is_search ↦ rw (← some_inj (rw (is_search, find_tool) at found)) same
  | inr no_search ↦ elim (Bool-cases ("delete" == name)) [
    | inl is_delete ↦ rw (← some_inj (rw (no_search, is_delete, find_tool) at found)) same
    | inr neither ↦ cc (rw (no_search, neither, find_tool) at found)
  ]
]

complete-IsMetered : IsMetered cents library researcher context spent 50 complete
complete-IsMetered =
    (λ history world response answered. rw (← ok_inj answered) (omega arith), tools-spend)

run-limited_example :
    outcome
    ≡ iterate cents library researcher context
        (limited cents library researcher context spent 50 complete)
        false
        3
        (initial_state cents library researcher context
          (text "find it")
          (some aggregator)
          (0, 0, 0))
unfolding get_totals multi_agent_orchestratio.Base.Dict.lookup
run-limited_example =
    run-limited cents library researcher context spent 50 complete (text "find it") false aggregator
      (0, 0, 0) policy refl complete-IsMetered refl refl refl refl refl

run-checked_example :
    outcome
    ≡ iterate cents library researcher context
        (checked cents library researcher context complete)
        false
        3
        (initial_state cents library researcher context
          (text "find it")
          (some aggregator)
          (0, 0, 0))
unfolding multi_agent_orchestratio.Core.Agent.Answered.open_calls
    multi_agent_orchestratio.Core.Agent.Messages.build_messages
run-checked_example =
    run-checked cents library researcher context complete (text "find it") false (some aggregator)
      (0, 0, 0) refl refl

-- An output guardrail that cuts a long answer to "done", and one that blocks an empty one.
abbrev shorten : Guardrail
shorten = record {
  name = "shorten";
  on_fail = OnFail.fix;
  validate = λ answer. ok (record {
    passed = answer == "done";
    output = some "done";
    violation = some "long";
    violations = [];
  });
}

abbrev guarded : GuardedAgent ℕ ℕ World
guarded = record {
  base = researcher;
  input_guardrails = some [];
  output_guardrails = some (shorten ∷ []);
  max_retries = 2;
}

abbrev answered : AgentResult ℕ ℕ ℕ
answered = record {
  agent_name = "researcher";
  output = "done";
  structured_output = none;
  messages =
      record {
        role = assistant_role;
        content = "done";
        name = some "researcher";
        tool_call_id = none;
        tool_calls = none;
      }
      ∷ [];
  tool_calls_made = [];
  token_usage = some usage;
  partial = false;
}

answered_again :
    (Guarded.run cents library guarded context
      (messages (plain_message user_role "a" ∷ plain_message user_role "b" ∷ []))
      (some aggregator, (0, 0, 0))).0
    ≡ Outcome.returned answered
unfolding Guarded.run multi_agent_orchestratio.Base.Dict.lookup
answered_again = refl

run-IsReleased_example : IsReleased (shorten ∷ []) "done"
run-IsReleased_example =
    run-IsReleased cents library guarded context (shorten ∷ []) refl
      (messages (plain_message user_role "a" ∷ plain_message user_role "b" ∷ []))
      (some aggregator, (0, 0, 0)) answered answered_again
