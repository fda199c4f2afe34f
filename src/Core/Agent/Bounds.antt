-- ===== src/Core/Agent/Bounds.antt =====
-- How many calls of its LLM an agent makes.
use multi_agent_orchestratio.Base.{
  ℕ, zero, suc, ◌+◌, ◌≤◌, Bool, Option, some, List, ◌≡◌, inl, inr, arith, Option-cases,
  Result-cases,
}
use multi_agent_orchestratio.Base.Floats.{Floats}
use multi_agent_orchestratio.Cost.Aggregator.{CostAggregator}
use multi_agent_orchestratio.Core.Agent.{Agent, Context, Complete, Library, AgentState}
use multi_agent_orchestratio.Core.Agent.Types.{Message}
use multi_agent_orchestratio.Core.Agent.Messages.{Input}
use multi_agent_orchestratio.Core.Agent.Loop.{
  check_budget, iteration, iterate, initial_state, run, again, done,
}
use multi_agent_orchestratio.Core.Agent.Steps.{receive-keeps}
use multi_agent_orchestratio.Core.Agent.Authority.{ToolsKeep, answers-world, count_call-world}

module _ (𝓕 : Floats) {Args S W : Type 0} (library : Library Args) (agent : Agent Args S W)
    (context : Context 𝓕.F Args W) (count : W → ℕ) where
  abbrev AtMost : ℕ → W → Type 0
  AtMost n world = count world ≤ n

  abbrev HasCalled : ℕ → AgentState 𝓕.F Args W → Type 0
  HasCalled n s = AtMost n s.world

  -- The count goes up by at most one with a call of the LLM, and not with a tool.
  abbrev pub CountsCalls : Type 0
  CountsCalls =
      ((complete : Complete 𝓕.F Args W) (messages : List (Message Args)) (world : W)
        → context.provider ≡ some complete
        → count (complete messages world).1 ≤ suc (count world))
      × ((n : ℕ) → ToolsKeep 𝓕 library agent context (AtMost n))

  module _ (complete : Complete 𝓕.F Args W) (given : context.provider ≡ some complete)
      (counts : CountsCalls) where
    iteration-HasCalled :
        (n : ℕ) (s : AgentState 𝓕.F Args W)
        → HasCalled n s
        → HasCalled (suc n) (iteration 𝓕 library agent context complete s).1
    unfolding iteration
    iteration-HasCalled n s few = elim (Result-cases (check_budget 𝓕 library agent context s)) [
      | inr (e, refused) ↦ rw (iteration, refused) (omega arith)
      | inl (granted, within) ↦
          let (response, world) = complete s.full_messages s.world in
          let called = counts.0 complete s.full_messages s.world given in
          let asked = record s { world = world } in
          let more : AtMost (suc n) world = omega arith in
          rw (iteration, within)
            (receive-keeps 𝓕 library agent context (HasCalled (suc n))
              (answers-world 𝓕 library agent context (AtMost (suc n)) (counts.1 (suc n))) response
              asked more
              (λ received.
                count_call-world 𝓕 library agent context (AtMost (suc n)) received asked more))
    ]

    iterate-HasCalled :
        (emit_partial : Bool) (left n : ℕ) (s : AgentState 𝓕.F Args W)
        → HasCalled n s
        → HasCalled (n + left) (iterate 𝓕 library agent context complete emit_partial left s).1
    unfolding iterate
    iterate-HasCalled emit_partial zero n s few = omega arith
    iterate-HasCalled emit_partial (suc left) n s few =
        let (turn, after) = iteration 𝓕 library agent context complete s in
        let called = iteration-HasCalled n s few in
        elim (Result-cases turn) [
          | inr (e, failed) ↦ rw (iterate, failed) (omega arith)
          | inl (again, next) ↦
              let later = iterate-HasCalled emit_partial left (suc n) after called in
              rw (iterate, next) (omega arith)
          | inl (done result, next) ↦ rw (iterate, next) (omega arith)
        ]

  -- A run calls its LLM at most `max_iterations` times, however it ends: a count that goes up by at
  -- most one with each call, and not when an authorised tool is executed, goes up by at most that.
  pub run-calls :
      (input : Input Args) (emit_partial : Bool) (cost_aggregator : Option (CostAggregator 𝓕.F))
      (world : W)
      → CountsCalls
      → count (run 𝓕 library agent context input emit_partial cost_aggregator world).1.world
        ≤ count world + agent.max_iterations
  unfolding run initial_state
  run-calls input emit_partial cost_aggregator world counts = elim (Option-cases context.provider) [
    | inl missing ↦ rw missing (omega arith)
    | inr (complete, provided) ↦
        let few =
          iterate-HasCalled complete provided counts emit_partial agent.max_iterations (count world)
            (initial_state 𝓕 library agent context input cost_aggregator world) (omega arith) in
        rw provided few
  ]
