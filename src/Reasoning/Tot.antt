-- ===== src/Reasoning/Tot.antt =====
-- src/orchestra/reasoning/tot.py: the nodes of a tree of thoughts, what is read from the answers of
-- the LLM, and its two kinds of call. A value of a node is in tenths: 10 is sure, 5 is maybe and 0
-- is impossible. The node's parents are given by their thoughts, which is all that is read of them.
pub mod Search
pub mod Results
pub mod Calls
pub mod Nodes
pub mod Found
pub mod Ends
use multi_agent_orchestratio.Base.{
  ℕ, suc, Bool, true, false, Option, none, some, List, [], ◌∷◌, ◌++◌, String, Result, ok, raise,
  ◌==◌, ◌&&◌, ◌||◌, not, if◌then◌else◌, has_text, before_first, after_first, starts_with, any, take,
}
use multi_agent_orchestratio.Base.Floats.{Floats}
use multi_agent_orchestratio.Core.Agent.Types.{TokenUsage, LlmResponse}
use multi_agent_orchestratio.Core.Agent.Messages.{no_usage, usage_or_none}
use multi_agent_orchestratio.Core.Agent.Tools.{or_empty_text}

abbrev pub final_prefix : String
final_prefix = "FINAL ANSWER:"

abbrev pub impossible_threshold : ℕ
impossible_threshold = 2

pub record ThoughtNode : Type 0 where
  pub thought : String
  pub value : ℕ
  pub depth : ℕ
  -- The thoughts of the parents, from the root on.
  pub above : List String
  pub is_terminal : Bool

unfoldable pub chain : ThoughtNode → List String
chain node = node.above ++ node.thought ∷ []

-- A new node, with the value maybe.
abbrev pub child_of : ℕ → ThoughtNode → String → ThoughtNode
child_of depth node thought = record {
  thought = thought;
  value = 5;
  depth = depth;
  above = chain node;
  is_terminal = false;
}

abbrev pub root : String → ThoughtNode
root problem = record { thought = problem; value = 10; depth = 0; above = []; is_terminal = false }

-- What the parser uses of Python's texts: `s.splitlines()`, `s.strip()`, `s.lower()`,
-- `s[0].isdigit()` and `s[:4]`.
pub record TextMethods : Type 0 where
  pub splitlines : String → List String
  pub strip : String → String
  pub lower : String → String
  pub begins_with_digit : String → Bool
  pub first_four : String → String

module _ (methods : TextMethods) where
  unfoldable pub final_answer : ThoughtNode → String
  final_answer node =
      if has_text final_prefix node.thought
      then methods.strip (after_first final_prefix node.thought)
      else node.thought

  is_labelled : String → Bool
  is_labelled line =
      let label = methods.lower (methods.strip (before_first ":" line)) in
      has_text ":" line && (starts_with label "thought" || starts_with label "step")

  -- The thought of one line that is not empty.
  thought_of_line : String → String
  unfolding is_labelled
  thought_of_line line =
      if has_text final_prefix line
      then line
      else if methods.begins_with_digit line && has_text "." (methods.first_four line)
      then methods.strip (after_first "." line)
      else if is_labelled line
      then methods.strip (after_first ":" line)
      else line

  thoughts_of_lines : List String → List String
  unfolding thought_of_line
  thoughts_of_lines [] = []
  thoughts_of_lines (raw ∷ lines) =
      let line = methods.strip raw in
      let rest = thoughts_of_lines lines in if line == "" then rest else thought_of_line line ∷ rest

  -- The first of each text, in order, without the empty one.
  unfoldable pub unique : List String → List String → List String
  unique seen [] = []
  unique seen (t ∷ thoughts) =
      let kept = t ∷ unique (t ∷ seen) thoughts in
      let skipped = unique seen thoughts in
      if t == "" || any (λ s. s == t) seen then skipped else kept

  unfoldable pub parse_thoughts : String → ℕ → List String
  unfolding thoughts_of_lines unique
  parse_thoughts text k = take k (unique [] (thoughts_of_lines (methods.splitlines text)))

  -- `for word, score in _VALUE_MAP.items()`: the first word that occurs.
  unfoldable pub value_of_answer : String → ℕ
  value_of_answer text =
      let raw = methods.lower (methods.strip text) in
      if has_text "sure" raw
      then 10
      else if has_text "maybe" raw
      then 5
      else if has_text "impossible" raw
      then 0
      else 5

-- A call of the LLM: what its prompt template is filled with. The system prompt, the model and the
-- temperature are those of the agent.
pub data Request : Type 0 where
  -- problem, chain, k
  generate : String → List String → ℕ → Request
  -- problem, chain without the thought, thought
  evaluate : String → List String → String → Request

pub record TotAgent : Type 0 where
  pub tot_breadth : ℕ
  pub tot_beam : ℕ
  pub tot_max_depth : ℕ

module _ (𝓕 : Floats) {Args W : Type 0} (methods : TextMethods)
    (complete : Request → W → Result (LlmResponse 𝓕.F Args) × W) where
  read_thoughts : ℕ → Result (LlmResponse 𝓕.F Args) → Result (List String × TokenUsage 𝓕.F)
  unfolding parse_thoughts
  read_thoughts k (raise e) = raise e
  read_thoughts k (ok response) =
      ok (parse_thoughts methods (or_empty_text response.content) k, usage_or_none 𝓕 response.usage)

  unfoldable pub generate_thoughts :
      ℕ → String → ThoughtNode → W → Result (List String × TokenUsage 𝓕.F) × W
  unfolding read_thoughts
  generate_thoughts k problem node world =
      let (response, after) = complete (generate problem (chain node) k) world in
      (read_thoughts k response, after)

  read_value : Result (LlmResponse 𝓕.F Args) → Result (ℕ × TokenUsage 𝓕.F)
  unfolding value_of_answer
  read_value (raise e) = raise e
  read_value (ok response) =
      ok (value_of_answer methods (or_empty_text response.content), usage_or_none 𝓕 response.usage)

  -- With the node, which a final thought marks as terminal.
  unfoldable pub evaluate_thought :
      String → ThoughtNode → W → (Result (ℕ × TokenUsage 𝓕.F) × ThoughtNode) × W
  unfolding read_value
  evaluate_thought problem node world =
      if has_text final_prefix node.thought
      then ((ok (10, no_usage 𝓕), record node { is_terminal = true }), world)
      else (let (response, after) = complete (evaluate problem node.above node.thought) world in
          ((read_value response, node), after))
