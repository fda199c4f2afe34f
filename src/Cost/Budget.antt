-- ===== src/Cost/Budget.antt =====
-- `BudgetPolicy` of src/orchestra/cost/budget.py, without the reasons and the log.
use multi_agent_orchestratio.Base.{
  ℕ, Bool, false, Option, none, some, String, Result, ok, raise, ◌==◌, ◌&&◌, ◌||◌, not,
  if◌then◌else◌, leb, budget_exceeded_error,
}
use multi_agent_orchestratio.Base.Floats.{Floats}

pub record BudgetCheckResult (F : Type 0) : Type 0 where
  pub allowed : Bool
  pub soft_limit_hit : Bool
  pub hard_limit_hit : Bool
  pub current_cost_usd : F
  pub current_tokens : ℕ
  pub suggested_model : Option String

pub record BudgetPolicy (F : Type 0) : Type 0 where
  pub soft_limit_usd : Option F
  pub hard_limit_usd : Option F
  pub soft_limit_tokens : Option ℕ
  pub hard_limit_tokens : Option ℕ
  pub downgrade_model : Option String

-- `if self.downgrade_model: suggested = self.downgrade_model`.
abbrev pub named_model : Option String → Option String
named_model none = none
named_model (some model) = if model == "" then none else some model

abbrev pub tokens_exceed : Option ℕ → ℕ → Bool
tokens_exceed none current_tokens = false
tokens_exceed (some limit) current_tokens = leb limit current_tokens

module _ (𝓕 : Floats) where
  abbrev pub cost_exceeds : Option 𝓕.F → 𝓕.F → Bool
  cost_exceeds none current_cost_usd = false
  cost_exceeds (some limit) current_cost_usd = 𝓕.geq current_cost_usd limit

  unfoldable pub check : BudgetPolicy 𝓕.F → 𝓕.F → ℕ → BudgetCheckResult 𝓕.F
  check policy current_cost_usd current_tokens =
      let hard_hit =
        cost_exceeds policy.hard_limit_usd current_cost_usd
        || tokens_exceed policy.hard_limit_tokens current_tokens in
      let soft_hit =
        not hard_hit
        && (cost_exceeds policy.soft_limit_usd current_cost_usd
            || tokens_exceed policy.soft_limit_tokens current_tokens) in
      record {
        allowed = not hard_hit;
        soft_limit_hit = soft_hit;
        hard_limit_hit = hard_hit;
        current_cost_usd = current_cost_usd;
        current_tokens = current_tokens;
        suggested_model = if soft_hit then named_model policy.downgrade_model else none;
      }

  unfoldable pub enforce : BudgetPolicy 𝓕.F → 𝓕.F → ℕ → Result (BudgetCheckResult 𝓕.F)
  unfolding check
  enforce policy current_cost_usd current_tokens =
      let result = check policy current_cost_usd current_tokens in
      if not result.allowed then raise budget_exceeded_error else ok result
