-- ===== src/Lib.antt =====
-- A verification library of the Orchestra framework, which runs workflows of agents as graphs.
--
-- The parts of the program and the files that model them:
--
-- Core/State: the state engine, src/orchestra/core/state.py (`apply_state_update`,
-- `merge_parallel_updates`). A state is the dict of its fields; the reducers and pydantic's
-- validation are the parameters of a `Schema`.
-- Core/Edges, Core/Nodes: src/orchestra/core/edges.py and nodes.py. What nodes and conditions
-- compute is user code, a function in the model that may raise.
-- Core/Distill: src/orchestra/core/context_distill.py, which cuts the history down that a handoff
-- passes on.
-- Core/Compiled: `CompiledGraph` of src/orchestra/core/compiled.py. Exec is the monad of a run, its
-- state is a `Machine`: the context, the sequence counters of the event bus, the events dispatched
-- so far, and the event store. Next is `_resolve_next` with the fan-outs, Loop is `_run_loop`,
-- `run` and `resume`. Bounds, Log, EdgeMap, Ending and Replay are about them; Rules, Walk, Hoare
-- and Projects are the rules by which their proofs follow the code.
-- Core/Graph: the builder of src/orchestra/core/graph.py with its validation (`compile`) and its
-- loop nodes. Closed, Reach and Loops are about it.
-- Storage: the events, the in-memory store, the sequence counters and `project_state`, from
-- src/orchestra/storage (events.py, checkpoint.py, store.py). The engine appends each event that
-- it dispatches to the store.
-- Security/CircuitBreaker: src/orchestra/security/circuit_breaker.py. The floats of the clock are
-- the parameter `TimeOps`; Trips and Recovers are about when a breaker opens and closes.
-- Providers/Failover: src/orchestra/providers/failover.py, the chain of providers, each behind
-- a circuit breaker.
-- Memory/Slru: `SLRUPolicy` of src/orchestra/memory/tiers.py, the entries in the two segments and
-- their demotion.
-- Core/Agent: `BaseAgent` of src/orchestra/core/agent.py. Types has the messages and results of
-- core/types.py, Tools is `_execute_tool`, Messages and Loop are `run`: a state with what the code
-- accumulates, the events, and the outside world on which the provider and the tools act. Steps and
-- Events carry an invariant through the loop; Authority, Bounds, Spending and Answered are about a
-- run.
-- Security/Acl: src/orchestra/security/acl.py, with Decision and Calls about it.
-- Security/Guardrails: `GuardrailChain` of src/orchestra/security/guardrails.py; Guarded is
-- `GuardedAgent`, which runs Core/Agent between two chains. Passes and Released are about them.
-- Identity: the tokens and the delegation context of src/orchestra/identity/types.py, its text
-- (Baggage), and the verification of a chain of tokens of ucan.py and delegation.py (Ucan).
-- Cost: the prices (Registry), totals (Aggregator), limits (Budget) and the ledger of the tenants
-- (Ledger) of src/orchestra/cost. The ledger's tables are a record and a transaction that raises
-- leaves them alone; Corrections is `adjust_actual`, and Debits, Bookings, Charges, Retries and
-- Depth are about a debit. A walk to the ancestors has the number of accounts and one more as its depth,
-- which Depth shows is enough; a chain of tokens is followed to any depth that is given.
-- Memory/Tiers: `TieredMemoryManager` of src/orchestra/memory/tiers.py over the policy and two
-- backends, with Agrees and Kept about what is found again.
-- Routing/Router: `CostAwareRouter` and `ThompsonModelSelector` of src/orchestra/routing/router.py,
-- with Choice about them.
-- Core/Graph/Fluent: parallel, join, branch and if_then of the builder. WellBuilt, Groups and
-- Branches carry an invariant through the calls; Scripts is about any calls in a row.
-- Reasoning/Tot: src/orchestra/reasoning/tot.py, the nodes, what is read from the LLM's answers, and
-- its calls; Search has the two searches and `run`. Results and Nodes are lemmas on what a search
-- gathers, Calls, Found and Ends are about the searches. The depth first search has fuel for its
-- rounds; Ends shows that the number of nodes of the full tree is enough.
-- Tprm: the review of a vendor or a deal in src/orchestra_tprm, which runs on Core. Schemas is
-- schemas.py; DocRouter and Graph are graph.py and modes/config.py, the assignment of the documents
-- and the wiring; Specialist, RiskScore and Policy are base.py, risk_score.py and policy.py of
-- agents, the last with `should_run_remediation` of remediation.py. Their child modules are about
-- them; Graph/Pipeline follows the edges of the built graph for 12 steps at most, which is more
-- than the longest pipeline has.
-- Security/RateLimit: src/orchestra/security/rate_limit.py, with Burst about it.
-- Providers/Cached: src/orchestra/providers/cached.py over any backend, with the data of its
-- cache key, and Sound about it.
-- Base: the shared helpers (numbers, lists, results, dicts). Tests: runs on small inputs.
--
-- A dict is an association list with distinct keys in the order of insertion. The while loop of
-- `_run_loop` recurs on the turns that are left, `max_turns` less the turn number, which is the
-- bound that the code itself tests, so no fuel is added. The tasks of `asyncio.gather` share no
-- model state, so their order of execution is not visible but in the order of the results, which
-- is that of the tasks.
--
-- The parameters stand for the reducers, the users' nodes, tools, guardrails and providers, for
-- floats (`Floats`, `TimeOps`, `BucketFloats`), and for Python's library and third-party packages:
-- `fnmatch`, JSON, SHA-256, the methods of texts, the clock, the backend of a cache, and the check
-- of a signature, the last with the key to which an agent's DID resolves.
--
-- Not modelled: the wrapping of agents and functions as nodes of the builder, the detectors of the
-- guardrails, forks and time travel, the prompts of the reviewers, the coordinator, the intake and
-- the plans of src/orchestra_tprm, persistent event stores, model providers, the server, messaging,
-- key material and observability. They are adapters to external services, texts for a model, or
-- left for an extension.
pub mod Base
pub mod Core
pub mod Storage
pub mod Security
pub mod Providers
pub mod Memory
pub mod Identity
pub mod Cost
pub mod Routing
pub mod Reasoning
pub mod Tprm
mod Tests
