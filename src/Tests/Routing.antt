-- ===== src/Tests/Routing.antt =====
-- The choice between a cheap model and a capable one, with costs in whole units.
use multi_agent_orchestratio.Base.{
  ℕ, ◌+◌, ◌*◌, none, some, List, [], ◌∷◌, ok, raise, ◌≡◌, refl, leb, model_selection_error,
}
use multi_agent_orchestratio.Base.Floats.{Floats}
use multi_agent_orchestratio.Routing.Router.{
  ModelOption, SlaConstraint, BudgetConstraint, RoutingDecision, Stats, fail_fast, favor_latency,
  select_model,
}

abbrev units : Floats
units = record {
  F = ℕ;
  zero = 0;
  add = λ a b. a + b;
  times = λ n a. n * a;
  geq = λ a b. leb b a;
  mul = λ a b. a * b;
  ratio = λ a b. a;
}

abbrev mini : ModelOption ℕ
mini = record {
  model_name = "mini";
  provider_name = "p";
  input_cost_1k = 1;
  output_cost_1k = 2;
  latency_score = 1;
  capability_score = 2;
  features = [];
}

abbrev large : ModelOption ℕ
large = record mini {
  model_name = "large";
  input_cost_1k = 10;
  capability_score = 5;
  features = "vision" ∷ [];
}

abbrev options : List (ModelOption ℕ)
options = mini ∷ large ∷ []

abbrev capable : SlaConstraint ℕ
capable = record {
  max_latency_ms = some 900;
  min_capability_score = some 4;
  required_features = "vision" ∷ [];
}

abbrev within : ℕ → BudgetConstraint ℕ
within limit = record { max_cost_usd = some limit; remaining_budget_usd = none }

abbrev no_stats : Stats ℕ
no_stats model_name provider_name = none

abbrev first_draw : ℕ → ℕ → ℕ → ℕ
first_draw n alpha failures = n

abbrev chosen : RoutingDecision ℕ
chosen = record { model = large; fallback_used = none; candidates_considered = 2 }

too_dear :
    (select_model units first_draw 1 1 options 1
      (some capable)
      (some (within 5))
      fail_fast
      no_stats).0
    ≡ raise model_selection_error
unfolding select_model
too_dear = refl

-- Where nothing is within the relaxed budget, the fastest is chosen at any price.
any_price :
    (select_model units first_draw 1 1
      (large ∷ [])
      1
      none
      (some (within 1))
      favor_latency
      no_stats).0
    ≡ ok (record { model = large; fallback_used = some favor_latency; candidates_considered = 1 })
unfolding select_model
any_price = refl
