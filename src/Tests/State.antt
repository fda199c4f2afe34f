-- ===== src/Tests/State.antt =====
-- The state engine, its merge and the context distillation on small inputs.
use multi_agent_orchestratio.Base.{
  ℕ, zero, suc, ◌+◌, ◌-◌, ◌≤◌, Bool, true, false, Option, none, some, List, [], ◌∷◌, ◌++◌, String,
  Result, ok, raise, ◌≡◌, refl, sym, ◌⊎◌, ◌==◌, ap, inl, inr, arith, All, length, take, drop,
  if◌then◌else◌, leb, state_validation_error, reducer_error,
}
use multi_agent_orchestratio.Base.Dict.{Dict, lookup}
use multi_agent_orchestratio.Core.State.{Schema, reduce, apply_state_update, merge_parallel_updates}
use multi_agent_orchestratio.Core.Distill.{
  MessageOps, stable_prefix, after_prefix, summary, distill_context,
}
use multi_agent_orchestratio.Core.Distill.Zones.{distill_context_lem}

-- `count: Annotated[int, sum_numbers]`, and `last` with no reducer.
abbrev schema : Schema ℕ
schema = record {
  reducers = ("count", λ old new. some (old + new)) ∷ [];
  model_validate = λ d. some d;
}

abbrev start : Dict ℕ
start = ("count", 1) ∷ ("last", 0) ∷ []

abbrev one : Dict ℕ
one = ("count", 2) ∷ []

abbrev two : Dict ℕ
two = ("last", 7) ∷ ("count", 5) ∷ []

unknown : apply_state_update schema start (("other", 1) ∷ []) ≡ raise state_validation_error
unfolding apply_state_update multi_agent_orchestratio.Core.State.apply_items lookup
unknown = refl

abbrev total : Dict ℕ
total = ("count", 8) ∷ ("last", 7) ∷ []

swapped : merge_parallel_updates schema start (two ∷ one ∷ []) ≡ ok total
unfolding merge_parallel_updates apply_state_update multi_agent_orchestratio.Core.State.apply_items
    lookup reduce multi_agent_orchestratio.Base.Dict.insert
swapped = refl

-- A message is its text; the system's begin a conversation.
abbrev ops : MessageOps String
ops = record {
  role = λ message. if message == "be brief" then "system" else "user";
  content = λ message. message;
  words = λ texts. texts;
  summary_message = λ template texts. "summary";
}

abbrev chat : List String
chat = "be brief" ∷ "one" ∷ "two" ∷ "three" ∷ []

distilled : distill_context ops 500 1 chat ≡ "be brief" ∷ "summary" ∷ "three" ∷ []
unfolding distill_context
distilled = refl

distill_context_lem_example : distill_context ops 500 1 chat ≡ (
    if leb (length (after_prefix ops chat)) 1
    then chat
    else stable_prefix ops chat
      ++ (summary ops 500 "be brief"
            (take (length (after_prefix ops chat) - 1) (after_prefix ops chat))
          ∷ drop (length (after_prefix ops chat) - 1) (after_prefix ops chat)))
distill_context_lem_example =
    distill_context_lem ops 500 1 "be brief" ("one" ∷ "two" ∷ "three" ∷ []) (omega arith)
