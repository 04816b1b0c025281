-- ===== src/Lib.antt =====
-- A verification library for the DDS-LLM orchestrator: its core logic as functions, with theorems
-- about them. Paths are from the root of the repository.
--
-- The program hands inference tasks to agents over a DDS data space. A client publishes a task; an
-- agent claims it (crates/agent); the orchestrator (crates/orchestrator) watches the agents and
-- takes tasks back from those that fell silent or stand still; an agent calls the language model
-- through the gateway (crates/llm-gateway), which caches answers, limits the rate and fails over
-- behind circuit breakers; tool calls pass the policy engine (crates/policy-engine); conversations
-- live in the context store (crates/context-store); plans of several tasks are validated before any
-- task is published, and the workflow engine runs them over a journal of decisions, budgets and
-- attempts (crates/workflow-engine).
--
-- Base: shared names. Base/Tests and Base/Lists have the Boolean tests and list functions over the
--   native numbers, Base/Int the integers over them with the casts between u64 and i64, Base/Decimal
--   the numerals of `format!`, Base/Outcome `Result` and the monad of a fallible `&mut self` method,
--   Base/Keeps what such methods keep of their state, Base/Dict maps with string keys.
-- Task: crates/orchestrator/src/state_machine.rs, function by function, over the `Task` of
--   crates/dds-contract/src/lib.rs. `step` and `run` are calls in any order. Task/Diagram is the
--   diagram of statuses as a relation, Task/History about histories, Task/Reassign the
--   branches of `reassign`.
-- Claim: crates/agent/src/claim.rs with `ModelSpecialization` of crates/orch-common/src/lib.rs.
--   Claim/Laws relates it to the state machine.
-- Reaper: `spawn_registry_monitor`, `reap_dead_agents`, `reassign_and_publish`, `reap_stalled_tasks`
--   and `republishe_reatribuicoes_pendentes` (here `republish_pending`) of
--   crates/orchestrator/src/dds.rs. `World` is what a sweep reads of the clocks and the mesh and
--   which writes succeed. Reaper/Writes, Reaper/Liveliness and Reaper/Progress have the proofs.
--   Reaper/Deadlines is `check_task_deadlines`, one task at a time, Reaper/Deadlines/Reports its proofs.
-- Policy/Engine: crates/policy-engine/src/engine.rs; Policy/Document:
--   crates/policy-engine/src/rules.rs over Policy/Json, the documented shape of serde_json's `Value`
--   (a float is its bit pattern, a map a list of entries). Policy/Engine/Window has the rate limit,
--   Policy/Engine/Evaluate the verdicts, Policy/Document/Merge, /Removal and /Delta the rules.
--   Policy/Cache is the `PolicyCache` of crates/policy-engine/src/cache.rs.
-- Gateway: crates/llm-gateway/src. Gateway/Breaker and Gateway/Manager are failover.rs,
--   Gateway/Cache the `LlmCache` of lib.rs (`insert` is `put`), Gateway/Providers its providers,
--   Gateway/Failover the loop over the targets and Gateway/Routing the rest of `process_routed`:
--   `under_constraint` asks the cache, `dispatch` the limit and the route, `answered` the primary
--   provider, `over_targets` the failover. Under them stand Breaker/Cycle, Breaker/Probe, Cache/Fifo,
--   Routing/Cascades (induction over the loop), Routing/Constraint, Routing/Probes, Routing/Memory.
-- ContextStore: crates/context-store/src. ContextStore/Entries is the map of snapshots,
--   ContextStore/Store the calls, the journal and its replay; ContextStore/Calls, /Expiry and
--   /Recovery have the proofs.
-- Dag: crates/workflow-engine/src/dag.rs and capability_catalog.rs. Dag/Rank is the search,
--   Dag/Plans and Dag/Verdict are about accepted plans, Dag/Totality and Dag/Answer about the end of
--   the search.
-- Workflow/Journal: crates/workflow-engine/src/journal.rs. Journal/Rows has the tables, Journal itself
--   the decisions, budgets and reservations, Journal/Attempts and Journal/Outbox the other two tables.
--   A transaction is a function that leaves the journal as it was when a statement fails; SQLite's
--   CHECK, PRIMARY KEY, UNIQUE and foreign key constraints are tests of the statements. Journal/Calls
--   has sequences of calls, Journal/Ledger an abstract ledger without counters; Ledger/Refinement,
--   Ledger/Budget, Ledger/Amounts, Journal/Replays, Journal/Intents and Journal/Drain have the proofs.
-- Workflow/Graph, Workflow/Engine: crates/workflow-engine/src/engine.rs and task_id.rs. The engine and
--   its journal are one `World`. Engine/Recovery is `recover`; Engine/Events has sequences of calls,
--   the moves that a node's progress can make (`Move`) and the calls of the journal (`Write`);
--   Engine/Moves is the induction over them, from which Engine/Attempts, /Final, /Late and /Spending
--   follow; Engine/Restart is about recovery, Graph/Ready about readiness.
-- Workflow/Decision: crates/workflow-engine/src/decision.rs, stage by stage in the order of
--   `validate`: the identifiers and the window, `status`, `profile`, `weigh` and `judge`, over the
--   types of Decision/Data. Decision/Admitted is about its checks. Workflow/Eligibility is
--   eligibility.rs, with the catalogue of revision 1, and Eligibility/Exact its conditions.
--   Workflow/QosMapper is qos_mapper.rs (`map` is `map_verdict`), QosMapper/Choice and /Budget are
--   about its costs.
-- Workflow/Runtime: `on_intent`, `on_decision` and (Runtime/Scheduler) `tick_scheduler` of
--   crates/workflow-engine/src/runtime.rs, which compose the validator of decisions, the mapper, the
--   journal, the validator of plans and the engine. What it writes to the workflow space and the data
--   space is a list of messages. Runtime/State has the state, Runtime/Intake is about decisions,
--   Runtime/Spending about sequences of inputs.
-- Tests: a concrete run of each theorem below.
--
-- Numbers are natural numbers; where the code wraps or saturates it is written out (`u32`,
-- `saturating_add`). Clocks are arguments. Calls do not overlap: they follow one another in any
-- order. The only fuel is that of the depth-first search of a plan, one more than its nodes: every
-- call within another has coloured a node. Integers of SQLite are exact here, as its own are while
-- sums fit in 64 bits; numerals have ten digits, enough for 32 bits.
--
-- Parameters: what a provider answers, the hash of a cache key, the tokens that the float
-- arithmetic of the refill yields, serde's reading and printing of JSON and of journal lines,
-- what becomes of the bytes of a line, what the mesh shows and which writes to it succeed,
-- SHA-256, how a published row of the outbox fares, whether the build of SQLite enforces foreign
-- keys, the floating-point numbers of a decision with the operations that its validator uses
-- (`Floats`), what the planner answers, which writes the workflow space takes.
--
-- Not modelled: the fuzzy QoS controller, metrics and traces, the DDS bindings, HTTP and streaming,
-- the MCP gateway, the watcher, the sweeper and the recovery of the workflow engine's runtime, the
-- hash of the mapper's configuration, the opening and locking of the journal's file and failures of
-- its disk, clients and user interfaces; of the orchestrator, its control loop and routing profiles;
-- the texts of errors that format numbers; the order of a hash map, which is that of insertion here.
pub mod Base
pub mod Task
pub mod Workflow
pub mod Claim
pub mod Reaper
pub mod Policy
pub mod Gateway
pub mod ContextStore
pub mod Dag
pub mod Tests
