-- ===== src/Routing/Router.antt =====
-- `ThompsonModelSelector` and `CostAwareRouter` of src/orchestra/routing/router.py, with the
-- constraints of routing/types.py. `beta n a b` is the draw from a Beta distribution for the n-th
-- option from the end; texts for the log are left out.
pub mod Choice
use multi_agent_orchestratio.Base.{
  ℕ, Bool, true, false, not, Option, none, some, List, [], ◌∷◌, ◌++◌, String, ◌==◌, ◌&&◌, Result,
  ok, raise, bind, if◌then◌else◌, leb, any, all, select, truthy, length, value_error,
  model_selection_error,
}
use multi_agent_orchestratio.Base.Floats.{Floats}

pub record ModelOption (F : Type 0) : Type 0 where
  pub model_name : String
  pub provider_name : String
  pub input_cost_1k : F
  pub output_cost_1k : F
  pub latency_score : ℕ
  pub capability_score : ℕ
  pub features : List String

pub data SelectionFallback : Type 0 where
  fail_fast favor_cost favor_latency : SelectionFallback

pub record SlaConstraint (F : Type 0) : Type 0 where
  pub max_latency_ms : Option F
  pub min_capability_score : Option ℕ
  pub required_features : List String

pub record BudgetConstraint (F : Type 0) : Type 0 where
  pub max_cost_usd : Option F
  pub remaining_budget_usd : Option F

pub record RoutingDecision (F : Type 0) : Type 0 where
  pub model : ModelOption F
  pub fallback_used : Option SelectionFallback
  pub candidates_considered : ℕ

-- The successes and the failures of each model at each provider.
abbrev pub Stats : Type 0 → Type 0
Stats F = String → String → Option (F × F)

-- `min(options, key=...)`, where `lt` compares the keys: the first of the least, from a best one.
unfoldable pub min_from : {A : Type 0} → (A → A → Bool) → A → List A → A
min_from lt best [] = best
min_from lt best (option ∷ options) = min_from lt (if lt option best then option else best) options

unfoldable pub min_of : {A : Type 0} → (A → A → Bool) → List A → List A
unfolding min_from
min_of lt [] = []
min_of lt (option ∷ options) = min_from lt option options ∷ []

module _ (𝓕 : Floats) where
  abbrev pub lt_F : 𝓕.F → 𝓕.F → Bool
  lt_F a b = not (𝓕.geq a b)

  abbrev pub or_initial : 𝓕.F → 𝓕.F → Option (𝓕.F × 𝓕.F) → 𝓕.F × 𝓕.F
  or_initial alpha_init beta_init none = (alpha_init, beta_init)
  or_initial alpha_init beta_init (some counts) = counts

  abbrev pub set_stats : String → String → 𝓕.F × 𝓕.F → Stats 𝓕.F → Stats 𝓕.F
  set_stats model_name provider_name counts stats m p =
      if m == model_name && p == provider_name then some counts else stats m p

  -- The most generous latency score for a latency.
  unfoldable pub max_score : 𝓕.F → ℕ
  max_score max_latency_ms =
      if lt_F max_latency_ms (𝓕.ratio 500 1)
      then 1
      else if lt_F max_latency_ms (𝓕.ratio 1000 1)
      then 2
      else if lt_F max_latency_ms (𝓕.ratio 2000 1)
      then 3
      else if lt_F max_latency_ms (𝓕.ratio 5000 1)
      then 4
      else 5

  abbrev pub is_capable : Option ℕ → ModelOption 𝓕.F → Bool
  is_capable none option = true
  is_capable (some min_score) option = leb min_score option.capability_score

  abbrev pub is_fast : Option 𝓕.F → ModelOption 𝓕.F → Bool
  is_fast none option = true
  is_fast (some max_latency_ms) option = leb option.latency_score (max_score max_latency_ms)

  abbrev pub has_features : List String → ModelOption 𝓕.F → Bool
  has_features required option =
      all (λ feature. any (λ own. own == feature) option.features) required

  -- The three filters, one after the other; one without a constraint keeps every option.
  unfoldable pub filter_by_sla : List (ModelOption 𝓕.F) → SlaConstraint 𝓕.F → List (ModelOption 𝓕.F)
  unfolding max_score
  filter_by_sla options sla =
      select (has_features sla.required_features)
        (select (is_fast sla.max_latency_ms) (select (is_capable sla.min_capability_score) options))

  unfoldable pub est_cost : ℕ → ModelOption 𝓕.F → 𝓕.F
  est_cost estimated_tokens option =
      𝓕.mul (𝓕.ratio estimated_tokens 1000) (𝓕.add option.input_cost_1k option.output_cost_1k)

  abbrev pub at_most : Option 𝓕.F → 𝓕.F → Bool
  at_most none cost = true
  at_most (some limit) cost = 𝓕.geq limit cost

  abbrev pub is_affordable : BudgetConstraint 𝓕.F → ℕ → ModelOption 𝓕.F → Bool
  is_affordable budget estimated_tokens option =
      at_most budget.max_cost_usd (est_cost estimated_tokens option)
      && at_most budget.remaining_budget_usd (est_cost estimated_tokens option)

  unfoldable pub filter_by_budget :
      List (ModelOption 𝓕.F) → BudgetConstraint 𝓕.F → ℕ → List (ModelOption 𝓕.F)
  unfolding est_cost
  filter_by_budget options budget estimated_tokens =
      select (is_affordable budget estimated_tokens) options

  -- `if sla:` and `if budget:`.
  abbrev pub by_sla : Option (SlaConstraint 𝓕.F) → List (ModelOption 𝓕.F) → List (ModelOption 𝓕.F)
  by_sla none options = options
  by_sla (some sla) options = filter_by_sla options sla

  abbrev pub by_budget :
      Option (BudgetConstraint 𝓕.F) → ℕ → List (ModelOption 𝓕.F) → List (ModelOption 𝓕.F)
  by_budget none estimated_tokens options = options
  by_budget (some budget) estimated_tokens options =
      filter_by_budget options budget estimated_tokens

  -- `budget.max_cost_usd * 1.5 if budget.max_cost_usd else None`.
  abbrev pub relaxed_cost : Option 𝓕.F → Option 𝓕.F
  relaxed_cost none = none
  relaxed_cost (some limit) =
      if 𝓕.geq limit 𝓕.zero && 𝓕.geq 𝓕.zero limit then none else some (𝓕.mul limit (𝓕.ratio 3 2))

  abbrev pub relaxed_budget : Option (BudgetConstraint 𝓕.F) → Option (BudgetConstraint 𝓕.F)
  relaxed_budget none = none
  relaxed_budget (some budget) =
      some (record budget { max_cost_usd = relaxed_cost budget.max_cost_usd })

  abbrev pub is_cheaper : ModelOption 𝓕.F → ModelOption 𝓕.F → Bool
  is_cheaper a b = lt_F a.input_cost_1k b.input_cost_1k

  abbrev pub is_faster : ModelOption 𝓕.F → ModelOption 𝓕.F → Bool
  is_faster a b = not (leb b.latency_score a.latency_score)

  -- `[min(candidates or options, key=...)]`.
  abbrev pub best_or :
      (ModelOption 𝓕.F → ModelOption 𝓕.F → Bool)
      → List (ModelOption 𝓕.F)
      → List (ModelOption 𝓕.F)
      → List (ModelOption 𝓕.F)
  best_or lt candidates options =
      if truthy candidates then min_of lt candidates else min_of lt options

  -- Step 3, where no option satisfies the constraints.
  unfoldable pub fall_back :
      SelectionFallback
      → List (ModelOption 𝓕.F)
      → Option (SlaConstraint 𝓕.F)
      → Option (BudgetConstraint 𝓕.F)
      → ℕ
      → Result (List (ModelOption 𝓕.F))
  unfolding filter_by_sla filter_by_budget min_of
  fall_back fail_fast options sla budget estimated_tokens = raise model_selection_error
  fall_back favor_cost options sla budget estimated_tokens =
      ok (best_or is_cheaper (by_budget budget estimated_tokens options) options)
  fall_back favor_latency options sla budget estimated_tokens = ok (
      best_or is_faster (by_budget (relaxed_budget budget) estimated_tokens (by_sla sla options))
        options)

  -- The draws of `select`, the first option's last, with the stats that it fills in.
  module _ (beta : ℕ → 𝓕.F → 𝓕.F → 𝓕.F) (alpha_init beta_init : 𝓕.F) where
    abbrev pub counts_of : ModelOption 𝓕.F → Stats 𝓕.F → 𝓕.F × 𝓕.F
    counts_of option stats =
        or_initial alpha_init beta_init (stats option.model_name option.provider_name)

    unfoldable pub samples :
        List (ModelOption 𝓕.F) → Stats 𝓕.F → List (𝓕.F × ModelOption 𝓕.F) × Stats 𝓕.F
    samples [] stats = ([], stats)
    samples (option ∷ options) stats =
        let (alpha, failures) = counts_of option stats in
        let (rest, filled) =
          samples options
            (set_stats option.model_name option.provider_name (alpha, failures) stats) in
        ((beta (length options) alpha failures, option) ∷ rest, filled)

    -- `max(samples, key=lambda x: x[0])`: the first of the greatest.
    abbrev pub is_greater : 𝓕.F × ModelOption 𝓕.F → 𝓕.F × ModelOption 𝓕.F → Bool
    is_greater a b = lt_F b.0 a.0

    abbrev pub best_sample : List (𝓕.F × ModelOption 𝓕.F) → Result (ModelOption 𝓕.F)
    best_sample [] = raise value_error
    best_sample (sample ∷ rest) = ok (min_from is_greater sample rest).1

    unfoldable pub select_option :
        List (ModelOption 𝓕.F) → Stats 𝓕.F → Result (ModelOption 𝓕.F) × Stats 𝓕.F
    unfolding samples min_from
    select_option options stats =
        let (drawn, filled) = samples options stats in (best_sample drawn, filled)

    unfoldable pub update : String → String → Bool → Stats 𝓕.F → Stats 𝓕.F
    update model_name provider_name success stats =
        let (alpha, failures) = or_initial alpha_init beta_init (stats model_name provider_name) in
        set_stats model_name provider_name
          (if success
            then (𝓕.add alpha (𝓕.ratio 1 1), failures)
            else (alpha, 𝓕.add failures (𝓕.ratio 1 1)))
          stats

    abbrev pub decision :
        Option SelectionFallback → List (ModelOption 𝓕.F) → ModelOption 𝓕.F → RoutingDecision 𝓕.F
    decision fallback_used options model = record {
      model = model;
      fallback_used = fallback_used;
      candidates_considered = length options;
    }

    -- Step 4, on candidates or the error of step 3.
    unfoldable pub decide :
        Option SelectionFallback
        → List (ModelOption 𝓕.F)
        → Result (List (ModelOption 𝓕.F))
        → Stats 𝓕.F
        → Result (RoutingDecision 𝓕.F) × Stats 𝓕.F
    unfolding select_option
    decide fallback_used options (raise e) stats = (raise e, stats)
    decide fallback_used options (ok candidates) stats =
        let (selected, filled) = select_option candidates stats in
        (bind selected (λ model. ok (decision fallback_used options model)), filled)

    unfoldable pub select_model :
        List (ModelOption 𝓕.F)
        → ℕ
        → Option (SlaConstraint 𝓕.F)
        → Option (BudgetConstraint 𝓕.F)
        → SelectionFallback
        → Stats 𝓕.F
        → Result (RoutingDecision 𝓕.F) × Stats 𝓕.F
    unfolding fall_back decide
    select_model options estimated_tokens sla budget fallback stats =
        let candidates = by_budget budget estimated_tokens (by_sla sla options) in
        if not (truthy options)
        then (raise value_error, stats)
        else if truthy candidates
        then decide none options (ok candidates) stats
        else decide (some fallback) options (fall_back fallback options sla budget estimated_tokens)
            stats
