-- ===== src/Core/Distill.antt =====
-- src/orchestra/core/context_distill.py. A message is any value `V`; the fields and the text
-- functions that the code reads or builds it with are `MessageOps`.
pub mod Zones
use multi_agent_orchestratio.Base.{
  ℕ, zero, suc, ◌-◌, Bool, List, [], ◌∷◌, ◌++◌, String, ◌==◌, ◌&&◌, not, if◌then◌else◌, ltb, length,
  take, drop, truthy,
}

pub record MessageOps (V : Type 0) : Type 0 where
  -- `_get_role`
  pub role : V → String
  -- `_get_content`
  pub content : V → String
  -- `" ".join(parts).split()`
  pub words : List String → List String
  -- `_make_summary_message(template, "[Context summary: " + " ".join(words) + "]")`
  pub summary_message : V → List String → V

module _ {V : Type 0} (ops : MessageOps V) where
  -- The leading system messages, and the rest.
  unfoldable pub stable_prefix : List V → List V
  stable_prefix [] = []
  stable_prefix (message ∷ messages) = elim (ops.role message == "system") [
    | Bool.true ↦ message ∷ stable_prefix messages
    | Bool.false ↦ []
  ]

  unfoldable pub after_prefix : List V → List V
  after_prefix [] = []
  after_prefix (message ∷ messages) = elim (ops.role message == "system") [
    | Bool.true ↦ after_prefix messages
    | Bool.false ↦ message ∷ messages
  ]

  -- The texts of the middle zone: `if content: parts.append(content)`.
  unfoldable pub parts : List V → List String
  parts [] = []
  parts (message ∷ messages) =
      let rest = parts messages in
      if ops.content message == "" then rest else ops.content message ∷ rest

  -- `xs[-n:] if n > 0 else []`.
  abbrev pub suffix_of : ℕ → List V → List V
  suffix_of zero xs = []
  suffix_of (suc n) xs = drop (length xs - suc n) xs

  unfoldable pub summary : ℕ → V → List V → V
  unfolding parts
  summary max_middleware_tokens template middleware =
      let words = ops.words (parts middleware) in
      ops.summary_message template (
        if ltb max_middleware_tokens (length words)
        then take max_middleware_tokens words
        else words)

  unfoldable pub distill_rest : ℕ → ℕ → V → List V → List V → List V
  unfolding summary
  distill_rest max_middleware_tokens keep_last_n_turns template prefix rest =
      let suffix = suffix_of keep_last_n_turns rest in
      let middleware = take (length rest - keep_last_n_turns) rest in
      if not (truthy rest)
      then prefix
      else if not (truthy middleware && truthy suffix)
      then prefix ++ suffix
      else prefix ++ (summary max_middleware_tokens template middleware ∷ suffix)

  unfoldable pub distill_context : ℕ → ℕ → List V → List V
  unfolding stable_prefix after_prefix distill_rest
  distill_context max_middleware_tokens keep_last_n_turns [] = []
  distill_context max_middleware_tokens keep_last_n_turns (message ∷ messages) =
      distill_rest max_middleware_tokens keep_last_n_turns message
        (stable_prefix (message ∷ messages)) (after_prefix (message ∷ messages))
