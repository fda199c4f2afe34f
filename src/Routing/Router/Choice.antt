-- ===== src/Routing/Router/Choice.antt =====
-- What the router may choose.
use multi_agent_orchestratio.Base.{ℕ, true, Option, none, some, ◌≡◌}
use multi_agent_orchestratio.Base.Floats.{Floats}
use multi_agent_orchestratio.Routing.Router.{
  ModelOption, SlaConstraint, BudgetConstraint, is_capable, is_fast, has_features, is_affordable,
}

module _ (𝓕 : Floats) (estimated_tokens : ℕ) where
  -- The option keeps the constraints, where there are any.
  abbrev pub MeetsSla : Option (SlaConstraint 𝓕.F) → ModelOption 𝓕.F → Type 0
  MeetsSla none option = Unit
  MeetsSla (some sla) option =
      (is_capable 𝓕 sla.min_capability_score option ≡ true)
      × (is_fast 𝓕 sla.max_latency_ms option ≡ true)
      × (has_features 𝓕 sla.required_features option ≡ true)

  abbrev pub MeetsBudget : Option (BudgetConstraint 𝓕.F) → ModelOption 𝓕.F → Type 0
  MeetsBudget none option = Unit
  MeetsBudget (some budget) option = is_affordable 𝓕 budget estimated_tokens option ≡ true
