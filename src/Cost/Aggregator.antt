-- ===== src/Cost/Aggregator.antt =====
-- `CostAggregator` of src/orchestra/cost/aggregator.py: the costs of each run.
use multi_agent_orchestratio.Base.{ℕ, ◌+◌, none, some, [], String, ◌==◌, if◌then◌else◌}
use multi_agent_orchestratio.Base.Dict.{Dict, lookup, insert}
use multi_agent_orchestratio.Base.Floats.{Floats}
use multi_agent_orchestratio.Cost.Registry.{Pricing, calculate_cost}

-- The costs of a model or of an agent.
pub record Breakdown (F : Type 0) : Type 0 where
  pub cost_usd : F
  pub input_tokens : ℕ
  pub output_tokens : ℕ
  pub call_count : ℕ

pub record RunCostSummary (F : Type 0) : Type 0 where
  pub run_id : String
  pub total_cost_usd : F
  pub total_input_tokens : ℕ
  pub total_output_tokens : ℕ
  pub total_tokens : ℕ
  pub call_count : ℕ
  pub by_model : Dict (Breakdown F)
  pub by_agent : Dict (Breakdown F)

pub record CostAggregator (F : Type 0) : Type 0 where
  pub registry : Dict (Pricing F)
  pub runs : Dict (RunCostSummary F)

module _ (𝓕 : Floats) where
  abbrev pub empty_breakdown : Breakdown 𝓕.F
  empty_breakdown = record {
    cost_usd = 𝓕.zero;
    input_tokens = 0;
    output_tokens = 0;
    call_count = 0;
  }

  abbrev pub empty_summary : String → RunCostSummary 𝓕.F
  empty_summary run_id = record {
    run_id = run_id;
    total_cost_usd = 𝓕.zero;
    total_input_tokens = 0;
    total_output_tokens = 0;
    total_tokens = 0;
    call_count = 0;
    by_model = [];
    by_agent = [];
  }

  abbrev pub summary_of : String → Dict (RunCostSummary 𝓕.F) → RunCostSummary 𝓕.F
  summary_of run_id runs = elim (lookup run_id runs) [
    | none ↦ empty_summary run_id
    | some summary ↦ summary
  ]

  abbrev pub breakdown_of : String → Dict (Breakdown 𝓕.F) → Breakdown 𝓕.F
  breakdown_of name breakdowns = elim (lookup name breakdowns) [
    | none ↦ empty_breakdown
    | some breakdown ↦ breakdown
  ]

  -- The breakdown of a model or an agent; nothing is kept for an empty name.
  unfoldable pub break_down : String → 𝓕.F → ℕ → ℕ → Dict (Breakdown 𝓕.F) → Dict (Breakdown 𝓕.F)
  break_down name cost input_tokens output_tokens breakdowns =
      let data_of = breakdown_of name breakdowns in
      if name == ""
      then breakdowns
      else insert name
          (record {
            cost_usd = 𝓕.add data_of.cost_usd cost;
            input_tokens = data_of.input_tokens + input_tokens;
            output_tokens = data_of.output_tokens + output_tokens;
            call_count = data_of.call_count + 1;
          })
          breakdowns

  unfoldable pub on_llm_called :
      String → String → String → ℕ → ℕ → CostAggregator 𝓕.F → CostAggregator 𝓕.F
  unfolding calculate_cost break_down
  on_llm_called run_id model agent_name input_tokens output_tokens aggregator =
      let summary = summary_of run_id aggregator.runs in
      let cost = calculate_cost 𝓕 aggregator.registry model input_tokens output_tokens in
      record aggregator {
        runs =
            insert run_id
              (record {
                run_id = summary.run_id;
                total_cost_usd = 𝓕.add summary.total_cost_usd cost;
                total_input_tokens = summary.total_input_tokens + input_tokens;
                total_output_tokens = summary.total_output_tokens + output_tokens;
                total_tokens = summary.total_tokens + (input_tokens + output_tokens);
                call_count = summary.call_count + 1;
                by_model = break_down model cost input_tokens output_tokens summary.by_model;
                by_agent = break_down agent_name cost input_tokens output_tokens summary.by_agent;
              })
              aggregator.runs;
      }

  unfoldable pub get_totals : String → CostAggregator 𝓕.F → 𝓕.F × ℕ
  get_totals run_id aggregator = elim (lookup run_id aggregator.runs) [
    | none ↦ (𝓕.zero, 0)
    | some summary ↦ (summary.total_cost_usd, summary.total_tokens)
  ]
