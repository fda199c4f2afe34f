-- ===== src/Cost/Registry.antt =====
-- `ModelCostRegistry` of src/orchestra/cost/registry.py. The prices are a dict in its order.

use multi_agent_orchestratio.Base.{
  ℕ, Option, none, some, List, [], ◌∷◌, String, ◌&&◌, if◌then◌else◌, ltb, starts_with,
}
use Prim.Native.String.{len}
use multi_agent_orchestratio.Base.Dict.{Dict, lookup, insert, keys}
use multi_agent_orchestratio.Base.Floats.{Floats}

-- The two prices that are looked up; a dict may lack one.
pub record Pricing (F : Type 0) : Type 0 where
  pub input_cost_per_token : Option F
  pub output_cost_per_token : Option F

-- The loop of the prefix match, from `best_match` and `best_len`.
unfoldable pub best_prefix {ℓ} : {P : Type ℓ} → String → Dict P → Option String → ℕ → Option String
best_prefix model [] best_match best_len = best_match
best_prefix model ((registered_model, _) ∷ prices) best_match best_len =
    let is_better = starts_with model registered_model && ltb best_len (len registered_model) in
    best_prefix model prices (if is_better then some registered_model else best_match)
      (if is_better then len registered_model else best_len)

unfoldable pub get_pricing {ℓ} : {P : Type ℓ} → String → Dict P → Option P
unfolding best_prefix
get_pricing model prices = elim (lookup model prices) [
  | some pricing ↦ some pricing
  | none ↦ elim (best_prefix model prices none 0) [
    | none ↦ none
    | some best_match ↦ lookup best_match prices
  ]
]

module _ (𝓕 : Floats) where
  abbrev pub price_or_zero : Option (𝓕.F) → 𝓕.F
  price_or_zero none = 𝓕.zero
  price_or_zero (some price) = price

  unfoldable pub calculate_cost : Dict (Pricing 𝓕.F) → String → ℕ → ℕ → 𝓕.F
  unfolding get_pricing
  calculate_cost prices model input_tokens output_tokens = elim (get_pricing model prices) [
    | none ↦ 𝓕.zero
    | some pricing ↦
        𝓕.add (𝓕.times input_tokens (price_or_zero pricing.input_cost_per_token))
          (𝓕.times output_tokens (price_or_zero pricing.output_cost_per_token))
  ]

unfoldable pub set_pricing : {F : Type 0} → String → F → F → Dict (Pricing F) → Dict (Pricing F)
set_pricing model input_cost_per_token output_cost_per_token prices =
    insert model
      (record {
        input_cost_per_token = some input_cost_per_token;
        output_cost_per_token = some output_cost_per_token;
      })
      prices

unfoldable pub models : {F : Type 0} → Dict (Pricing F) → List String
models prices = keys prices
