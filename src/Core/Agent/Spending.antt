-- ===== src/Core/Agent/Spending.antt =====
-- On which budget an agent calls its LLM.
use multi_agent_orchestratio.Base.{
  ℕ, ◌+◌, ◌<◌, Bool, true, false, Option, some, List, String, ◌≡◌, refl, sym, ap, ◌∙◌, inl, inr,
  arith, ok, raise, Result, bind-eq-ok, leb, ltb, Bool-cases, Result-cases, truthy, if◌then◌else◌,
  provider_error,
}
use multi_agent_orchestratio.Base.Floats.{Floats}
use multi_agent_orchestratio.Base.Dict.{Dict, insert, lookup-insert_self}
use multi_agent_orchestratio.Cost.Budget.{BudgetPolicy, BudgetCheckResult, enforce, cost_exceeds}
use multi_agent_orchestratio.Cost.Aggregator.{
  CostAggregator, RunCostSummary, get_totals, on_llm_called, summary_of,
}
use multi_agent_orchestratio.Core.Agent.{
  Agent, Context, Complete, Library, AgentState, emit, observe,
}
use multi_agent_orchestratio.Core.Agent.Types.{
  Message, LlmResponse, AgentEvent, llm_called, tool_called, unauthorized_tool,
}
use multi_agent_orchestratio.Core.Agent.Messages.{Input, usage_or_none}
use multi_agent_orchestratio.Core.Agent.Loop.{
  again, check_budget, count_call, receive, iteration, iterate, initial_state, run,
}
use multi_agent_orchestratio.Core.Agent.Steps.{KeepsAnswers, answer-keeps, iterate-same}
use multi_agent_orchestratio.Core.Agent.Authority.{ToolsKeep, answers-world}
use multi_agent_orchestratio.Core.Agent.Events.{IsQuiet, answers-Observed}

get_totals-tokens :
    (𝓕 : Floats) (run_id : String) (aggregator : CostAggregator 𝓕.F)
    → (get_totals 𝓕 run_id aggregator).1 ≡ (summary_of 𝓕 run_id aggregator.runs).total_tokens
unfolding get_totals
get_totals-tokens 𝓕 run_id aggregator = ground arith

summary_of-insert :
    (𝓕 : Floats) (run_id : String) (summary : RunCostSummary 𝓕.F) (runs : Dict (RunCostSummary 𝓕.F))
    → summary_of 𝓕 run_id (insert run_id summary runs) ≡ summary
summary_of-insert 𝓕 run_id summary runs =
    rw (lookup-insert_self run_id summary runs, summary_of) refl

get_totals-on_llm_called :
    (𝓕 : Floats) (run_id model agent_name : String) (input_tokens output_tokens : ℕ)
    (aggregator : CostAggregator 𝓕.F)
    → (get_totals 𝓕 run_id
        (on_llm_called 𝓕 run_id model agent_name input_tokens output_tokens aggregator)).1
      ≡ (get_totals 𝓕 run_id aggregator).1 + (input_tokens + output_tokens)
unfolding on_llm_called
get_totals-on_llm_called 𝓕 run_id model agent_name input_tokens output_tokens aggregator =
    rw
      (
        get_totals-tokens 𝓕 run_id
            (on_llm_called 𝓕 run_id model agent_name input_tokens output_tokens aggregator),
        get_totals-tokens 𝓕 run_id aggregator,
      )
      (ap (λ summary. summary.total_tokens) (summary_of-insert 𝓕 run_id _ aggregator.runs))

enforce-tokens :
    (𝓕 : Floats) (policy : BudgetPolicy 𝓕.F) (cost : 𝓕.F) (spent limit : ℕ)
    {result : BudgetCheckResult 𝓕.F}
    → policy.hard_limit_tokens ≡ some limit
    → enforce 𝓕 policy cost spent ≡ ok result
    → spent < limit
unfolding enforce
enforce-tokens 𝓕 policy cost spent limit hard h = elim (Bool-cases (leb limit spent)) [
  | inr below ↦ ground arith
  | inl over ↦ elim (Bool-cases (cost_exceeds 𝓕 policy.hard_limit_usd cost)) [
    | inl costly ↦ cc (rw (enforce, hard, over, costly) at h)
    | inr cheap ↦ cc (rw (enforce, hard, over, cheap) at h)
  ]
]

module _ (𝓕 : Floats) {Args S W : Type 0} (library : Library Args) (agent : Agent Args S W)
    (context : Context 𝓕.F Args W) (spent : W → ℕ) (limit : ℕ) where
  -- The provider, if it raises once the tokens that the run has spent reach the limit.
  abbrev pub limited : Complete 𝓕.F Args W → Complete 𝓕.F Args W
  limited complete messages world =
      if ltb (spent world) limit then complete messages world else (raise provider_error, world)

  -- The input and output tokens of a response; a response without usage has none.
  abbrev pub tokens_of : LlmResponse 𝓕.F Args → ℕ
  tokens_of response =
      let usage = usage_or_none 𝓕 response.usage in usage.input_tokens + usage.output_tokens

  -- What is spent goes up by the tokens of each response, and not with a tool.
  abbrev pub IsMetered : Complete 𝓕.F Args W → Type 0
  IsMetered complete =
      ((messages : List (Message Args)) (world : W) (response : LlmResponse 𝓕.F Args)
        → (complete messages world).0 ≡ ok response
        → spent (complete messages world).1 ≡ spent world + tokens_of response)
      × ((n : ℕ) → ToolsKeep 𝓕 library agent context (λ world. spent world ≡ n))

  -- The aggregator has counted so many tokens.
  abbrev HasCounted : ℕ → List (AgentEvent 𝓕.F Args) → Option (CostAggregator 𝓕.F) → Type 0
  HasCounted n events held =
      (aggregator : CostAggregator 𝓕.F) × (held ≡ some aggregator)
      × ((get_totals 𝓕 context.run_id aggregator).1 ≡ n)

  -- So many tokens are spent, and the aggregator has counted them.
  abbrev Counted : ℕ → AgentState 𝓕.F Args W → Type 0
  Counted n s = HasCounted n s.emitted s.cost_aggregator × (spent s.world ≡ n)

  HasCounted-IsQuiet : (n : ℕ) → IsQuiet 𝓕 library agent context (HasCounted n)
  unfolding multi_agent_orchestratio.Core.Agent.on_event
  HasCounted-IsQuiet n (llm_called _ _ _ _ _ _ _ _) events held quiet counted = absurd (omega arith)
  HasCounted-IsQuiet n (tool_called a t g r e) events held quiet (aggregator, same, counted) =
      (aggregator, ap (observe 𝓕 (tool_called a t g r e)) same, counted)
  HasCounted-IsQuiet n (unauthorized_tool a t) events held quiet (aggregator, same, counted) =
      (aggregator, ap (observe 𝓕 {Args = Args} (unauthorized_tool a t)) same, counted)

  module _ (complete : Complete 𝓕.F Args W) (metered : IsMetered complete) where
    answers-Counted : (n : ℕ) → KeepsAnswers 𝓕 library agent context (Counted n)
    answers-Counted n =
        let events =
          answers-Observed 𝓕 library agent context (HasCounted n) (HasCounted-IsQuiet n) in
        let tools =
          answers-world 𝓕 library agent context (λ world. spent world ≡ n) (metered.1 n) in
        record {
          asked = λ message s counted. counted;
          executed = λ tool_call s counted.
              (events.executed tool_call s counted.0, tools.executed tool_call s counted.1);
          recorded = λ tool_call result s counted. (
            events.recorded tool_call result s counted.0,
            tools.recorded tool_call result s counted.1,
          );
        }

    module _ (policy : BudgetPolicy 𝓕.F) (live : context.replay_mode ≡ false)
        (bus : context.has_event_bus ≡ true) (given : context.budget_policy ≡ some policy)
        (hard : policy.hard_limit_tokens ≡ some limit) where
      -- What a check of the budget that does not raise says.
      check_budget-below :
          (n : ℕ) (s : AgentState 𝓕.F Args W)
          → Counted n s
          → check_budget 𝓕 library agent context s ≡ ok tt
          → spent s.world < limit
      unfolding check_budget
      check_budget-below n s ((aggregator, held, counted), so_far) h =
          let (result, enforced, _) =
            bind-eq-ok (enforce 𝓕 policy _ _) _ (rw (check_budget, given, held) at h) in
          rw (so_far, ← counted) (enforce-tokens 𝓕 policy _ _ limit hard enforced)

      count_call-Counted :
          (n : ℕ) (response : LlmResponse 𝓕.F Args) (s : AgentState 𝓕.F Args W)
          → HasCounted n s.emitted s.cost_aggregator
          → spent s.world ≡ n + tokens_of response
          → Counted (n + tokens_of response) (count_call 𝓕 library agent context response s)
      unfolding count_call emit multi_agent_orchestratio.Core.Agent.on_event
      count_call-Counted n response s (aggregator, held, counted) so_far =
          rw (live, bus, held)
            (
              (
                _,
                refl,
                get_totals-on_llm_called 𝓕 context.run_id _ _ _ _ aggregator
                    ∙ ap (λ before. before + tokens_of response) counted,
              ),
              so_far,
            )

      receive-Counted :
          (n : ℕ) (response : LlmResponse 𝓕.F Args) (s : AgentState 𝓕.F Args W)
          → HasCounted n s.emitted s.cost_aggregator
          → spent s.world ≡ n + tokens_of response
          → Counted (n + tokens_of response) (receive 𝓕 library agent context (ok response) s).1
      unfolding receive
      receive-Counted n response s before so_far =
          let counted = count_call-Counted n response s before so_far in
          let more = n + tokens_of response in
          elim (Bool-cases (truthy response.tool_calls)) [
            | inl calls ↦
                rw (receive, calls)
                  (answer-keeps 𝓕 library agent context (Counted more) (answers-Counted more)
                    response (count_call 𝓕 library agent context response s) counted)
            | inr final ↦ rw (receive, final) counted
          ]

      abbrev IsCounted : AgentState 𝓕.F Args W → Type 0
      IsCounted s = (n : ℕ) × Counted n s

      iteration-IsCounted :
          (s : AgentState 𝓕.F Args W)
          → IsCounted s
          → (iteration 𝓕 library agent context complete s).0 ≡ ok again
          → IsCounted (iteration 𝓕 library agent context complete s).1
      unfolding iteration receive
      iteration-IsCounted s (n, counted) going =
          elim (Result-cases (check_budget 𝓕 library agent context s)) [
            | inr (e, refused) ↦ cc (rw (iteration, refused) at going)
            | inl (granted, within) ↦ elim (Result-cases (complete s.full_messages s.world).0) [
              | inr (e, failed) ↦ cc (rw (iteration, within, failed, receive) at going)
              | inl (response, answered) ↦
                  let more = metered.0 s.full_messages s.world response answered in
                  let after = record s { world = (complete s.full_messages s.world).1 } in
                  (
                    n + tokens_of response,
                    rw (iteration, within, answered)
                        (receive-Counted n response after counted.0
                          (more ∙ ap (λ k. k + tokens_of response) counted.1)),
                  )
            ]
          ]

      iteration-limited :
          (s : AgentState 𝓕.F Args W)
          → IsCounted s
          → iteration 𝓕 library agent context (limited complete) s
            ≡ iteration 𝓕 library agent context complete s
      unfolding iteration
      iteration-limited s (n, counted) =
          elim (Result-cases (check_budget 𝓕 library agent context s)) [
            | inr (e, refused) ↦ rw (iteration, refused) refl
            | inl (granted, within) ↦
                let below = check_budget-below n s counted within in
                let small : ltb (spent s.world) limit ≡ true = ground arith in
                let passes : limited complete s.full_messages s.world
                    ≡ complete s.full_messages s.world =
                  rw (limited, small) refl in
                rw (iteration, within)
                  (ap
                    (λ (answered : Result (LlmResponse 𝓕.F Args) × W).
                      receive 𝓕 library agent context answered.0 (record s { world = answered.1 }))
                    passes)
          ]

  -- Outside a replay, with an event bus that feeds the aggregator and a budget policy with a hard
  -- token limit, the LLM is only called while the tokens that the run has really spent are below the
  -- limit: the run is that of an LLM that raises from there on. Spent tokens are any measure of the
  -- outside world that goes up by the tokens of each response and not with a tool, and that agrees
  -- with the aggregator at the start.
  pub run-limited :
      (complete : Complete 𝓕.F Args W) (input : Input Args) (emit_partial : Bool)
      (aggregator : CostAggregator 𝓕.F) (world : W) (policy : BudgetPolicy 𝓕.F)
      → context.provider ≡ some complete
      → IsMetered complete
      → context.replay_mode ≡ false
      → context.has_event_bus ≡ true
      → context.budget_policy ≡ some policy
      → policy.hard_limit_tokens ≡ some limit
      → (get_totals 𝓕 context.run_id aggregator).1 ≡ spent world
      → run 𝓕 library agent context input emit_partial (some aggregator) world
        ≡ iterate 𝓕 library agent context
            (limited complete)
            emit_partial
            agent.max_iterations
            (initial_state 𝓕 library agent context input (some aggregator) world)
  unfolding run initial_state
  run-limited complete input emit_partial aggregator world policy provided metered live bus given
        hard start =
      let IsSo = IsCounted complete metered policy live bus given hard in
      rw provided (
        sym (
          iterate-same 𝓕 library agent context IsSo complete (limited complete)
            (iteration-limited complete metered policy live bus given hard)
            (iteration-IsCounted complete metered policy live bus given hard) emit_partial
            agent.max_iterations
            (initial_state 𝓕 library agent context input (some aggregator) world)
            (spent world, ((aggregator, refl, start), refl))))
