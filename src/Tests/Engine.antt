-- ===== src/Tests/Engine.antt =====
-- A workflow of two nodes and a loop, run from a fresh context and from a checkpoint.
use multi_agent_orchestratio.Base.{
  ℕ, zero, suc, ◌+◌, ◌-◌, ◌≤◌, Bool, true, false, Option, none, some, List, [], ◌∷◌, ◌++◌, String,
  Result, ok, raise, ◌≡◌, ◌≢◌, refl, arith, length, select, ◌==◌, bind,
}
use multi_agent_orchestratio.Base.Dict.{Dict, lookup, get_or}
use multi_agent_orchestratio.Core.Edges.{Routed, Send, Target, GraphEdge, direct, conditional}
use multi_agent_orchestratio.Core.Nodes.{GraphNode, function_node}
use multi_agent_orchestratio.Core.Compiled.{Values, CompiledGraph, Machine, source_of, edge_map}
use multi_agent_orchestratio.Core.Compiled.Loop.{
  done, interrupted_at, run, resume_from, restored, fresh, try_loop,
}
use multi_agent_orchestratio.Core.Compiled.Bounds.{run-turns}
use multi_agent_orchestratio.Core.Compiled.Ending.{last_body, ending, try_loop-ending}
use multi_agent_orchestratio.Core.Compiled.Log.{IsLogged, run-IsLogged, resume_from-IsLogged}
use multi_agent_orchestratio.Core.Compiled.Replay.{
  IsSequential, run-project_state, lookup-project_state,
}
use multi_agent_orchestratio.Storage.Events.{Checkpoint, before, after}
use multi_agent_orchestratio.Storage.Store.{empty_store, project_state}

abbrev pub values : Values ℕ
values = record {
  dumps = λ v. "0";
  show = λ v. "0";
  show_sends = λ sends. "[]";
  of_counters = λ counters. length counters;
  as_messages = λ v. [];
  of_messages = λ messages. length messages;
  message_ops = record {
    role = λ m. "user";
    content = λ m. "";
    words = λ texts. texts;
    summary_message = λ template texts. template;
  };
  handoff_payload = λ edge history. length history;
}

abbrev pub step : String → GraphNode ℕ
step field = record {
  node_type = function_node;
  call = λ state. ok ((field, get_or field 0 state + 1) ∷ []);
  interrupt_before = false;
  interrupt_after = false;
}

-- The condition of `review`: it goes back to `draft` until the count is 2.
abbrev again : Option ℕ → Routed ℕ
again (some (suc (suc n))) = Routed.stop
again _ = Routed.text "draft"

abbrev edges : List (GraphEdge ℕ)
edges =
    direct (record { source = "draft"; target = Target.node "review" })
    ∷ conditional (record {
      source = "review";
      condition = λ state counters. (ok (again (lookup "review" state)), counters);
      path_map = none;
    })
    ∷ []

abbrev graph : CompiledGraph ℕ
graph = record {
  nodes = ("draft", step "draft") ∷ ("review", step "review") ∷ [];
  edges = edges;
  entry_point = "draft";
  state_schema = none;
  max_turns = 50;
  name = "review loop";
  handoff_edges = [];
}

abbrev pub initial : Dict ℕ
initial = ("draft", 0) ∷ []

again-sends :
    (v : Option ℕ) (s : Send ℕ) (ss : List (Send ℕ)) → ok (again v) ≢ ok (Routed.sends s ss)
again-sends none s ss h = cc
again-sends (some zero) s ss h = cc
again-sends (some (suc zero)) s ss h = cc
again-sends (some (suc (suc n))) s ss h = cc

sequential : IsSequential graph
sequential = record {
  plain = refl;
  edges_keep =
      (tt, ((λ state counters send sends. again-sends (lookup "review" state) send sends), tt));
  no_handoffs = refl;
}

abbrev final : Dict ℕ
final = ("draft", 2) ∷ ("review", 2) ∷ []

returned : (run values graph "run-1" (some empty_store) none initial).0 ≡ ok (done final)
unfolding run multi_agent_orchestratio.Core.Compiled.Exec.◌>>=◌
    multi_agent_orchestratio.Core.Compiled.Loop.loop
    multi_agent_orchestratio.Core.Compiled.Loop.turn
    multi_agent_orchestratio.Core.Compiled.Exec.modify lookup edge_map
    multi_agent_orchestratio.Base.Dict.insert multi_agent_orchestratio.Base.Dict.update
returned = refl

run-project_state_example :
    project_state (run values graph "run-1" (some empty_store) none initial).1.emitted [] ≡ final
run-project_state_example =
    run-project_state values graph sequential "run-1" (some empty_store) none initial returned

-- The same workflow, with an interrupt after each review.
abbrev paused : CompiledGraph ℕ
paused = record graph {
  nodes =
      ("draft", step "draft") ∷ ("review", record (step "review") { interrupt_after = true }) ∷ [];
}

paused-IsSequential : IsSequential paused
paused-IsSequential = record {
  plain = sequential.plain;
  edges_keep = sequential.edges_keep;
  no_handoffs = sequential.no_handoffs;
}

abbrev reviewed : Dict ℕ
reviewed = ("draft", 1) ∷ ("review", 1) ∷ ("__loop_counters__", 0) ∷ []

stopped :
    (run values paused "run-1" none none initial).0
    ≡ ok (interrupted_at reviewed "review" after (some "draft"))
unfolding run multi_agent_orchestratio.Core.Compiled.Exec.◌>>=◌
    multi_agent_orchestratio.Core.Compiled.Loop.loop
    multi_agent_orchestratio.Core.Compiled.Loop.turn
    multi_agent_orchestratio.Core.Compiled.Exec.modify lookup edge_map
    multi_agent_orchestratio.Base.Dict.insert multi_agent_orchestratio.Base.Dict.update
stopped = refl

lookup-project_state_example :
    lookup "review" (project_state (run values paused "run-1" none none initial).1.emitted [])
    ≡ lookup "review" reviewed
lookup-project_state_example =
    lookup-project_state values paused paused-IsSequential "run-1" none none initial "review"
      stopped refl

run-turns_example :
    let m = (run values graph "run-1" (some empty_store) none initial).1 in
    (m.context.turn_number ≤ 50) × (length m.context.node_execution_order ≤ 50)
run-turns_example = run-turns values graph "run-1" (some empty_store) none initial

no_events : get_or "run-1" [] (empty_store {V = ℕ}).events ≡ []
unfolding lookup
no_events = refl

run-IsLogged_example :
    IsLogged "run-1" 0 [] (run values graph "run-1" (some empty_store) none initial).1
run-IsLogged_example =
    run-IsLogged values graph "run-1" (some empty_store) none initial [] no_events

abbrev saved : Checkpoint ℕ
saved = record {
  run_id = "run-1";
  sequence_number = 4;
  node_id = "review";
  interrupt_type = before;
  state = ("draft", 1) ∷ [];
  loop_counters = [];
  node_execution_order = "draft" ∷ [];
}

resume_from-IsLogged_example :
    IsLogged "run-1" 5 [] (resume_from values graph saved [] (restored saved empty_store)).1
resume_from-IsLogged_example = resume_from-IsLogged values graph saved [] empty_store [] no_events

try_loop-ending_example :
    let (result, m') =
      try_loop values graph (Routed.text "nowhere") initial false (fresh "run-1" none) in
    last_body m' ≡ some (ending result)
try_loop-ending_example =
    try_loop-ending values graph (Routed.text "nowhere") initial false (fresh "run-1" none)
