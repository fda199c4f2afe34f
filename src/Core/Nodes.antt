-- ===== src/Core/Nodes.antt =====
-- src/orchestra/core/nodes.py and `_execute_node` of core/compiled.py. What a node computes is user
-- code: `call` takes the state dict and returns an update or raises.
use multi_agent_orchestratio.Base.{
  Bool, Result, ok, raise, Error, graph_compile_error, agent_error, max_iterations_error,
  provider_error,
}
use multi_agent_orchestratio.Base.Dict.{Dict}

pub data NodeType : Type 0 where
  agent_node function_node subgraph_node : NodeType

pub record GraphNode (V : Type 0) : Type 0 where
  pub node_type : NodeType
  pub call : Dict V → Result (Dict V)
  pub interrupt_before : Bool
  pub interrupt_after : Bool

-- `except (AgentError, GraphCompileError, ProviderError): raise`, and any other exception becomes
-- an `AgentError`. `MaxIterationsError` is a subclass of `AgentError`.
unfoldable pub wrap_error : Error → Error
wrap_error agent_error = agent_error
wrap_error max_iterations_error = max_iterations_error
wrap_error graph_compile_error = graph_compile_error
wrap_error provider_error = provider_error
wrap_error _ = agent_error

unfoldable pub wrapped : {V : Type 0} → Result (Dict V) → Result (Dict V)
unfolding wrap_error
wrapped (ok update) = ok update
wrapped (raise e) = raise (wrap_error e)

unfoldable pub execute_node : {V : Type 0} → GraphNode V → Dict V → Result (Dict V)
unfolding wrapped
execute_node node state = wrapped (node.call state)
