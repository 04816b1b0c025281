-- ===== src/Workflow/Runtime/State.antt =====
-- The state of `EngineRuntime` and what it shows of a workflow: crates/workflow-engine/src/runtime.rs.
use dds_llm_orchestrator.Base.{
  ℕ, ℤ, String, Bool, false, Option, none, some, Result, ok, err, Method, modify, List, [], ◌∷◌,
  map, if◌then◌else◌, str_eq,
}
use dds_llm_orchestrator.Base.Dict.{Dict, lookup, insert}
use dds_llm_orchestrator.Dag as Dag
use dds_llm_orchestrator.Dag.{CandidateNode, PlanCandidate, Stop, validate_candidate}
use dds_llm_orchestrator.Workflow.Journal.Rows.{Journal, JournalError, Admission}
use dds_llm_orchestrator.Workflow.Graph.{NodeSpec, PlanGraph}
use dds_llm_orchestrator.Workflow.Engine.{Failure, NodeProgress}
use dds_llm_orchestrator.Workflow.Decision as Decision
use dds_llm_orchestrator.Workflow.Decision.{
  Floats, RoutingDecision, DecisionPolicy, Verdict, accept, error, reject, validate,
}
use dds_llm_orchestrator.Workflow.QosMapper as QosMapper
use dds_llm_orchestrator.Workflow.QosMapper.{
  EffectiveQos, QosReject, QosMapping, applied, rejected, QosMapperPolicy, map_verdict,
  map_fallback, is_ordinal,
}

pub record WorkflowIntent : Type 0 where
  pub request_id : String
  pub workflow_id : String
  pub schema_version : ℕ
  pub intent_revision : ℕ
  pub command : ℤ
  pub expected_plan_revision : ℕ
  pub prompt : String
  pub created_at_ns : ℕ
  pub deadline_ns : ℕ
  pub policy_revision : ℕ
  pub questions_revision : ℕ
  pub capability_catalog_revision : ℕ
  pub checkpoint_revision : String
  pub max_tokens : ℕ
  pub max_cost_microunits : ℕ
  pub fallback_template_id : String

-- What the validator of decisions, the mapper and the validator of plans read of an intent.
abbrev pub for_decision : WorkflowIntent → Decision.WorkflowIntent
for_decision i = record {
  schema_version = i.schema_version;
  request_id = i.request_id;
  workflow_id = i.workflow_id;
  intent_revision = i.intent_revision;
  questions_revision = i.questions_revision;
  policy_revision = i.policy_revision;
  capability_catalog_revision = i.capability_catalog_revision;
  checkpoint_revision = i.checkpoint_revision;
  deadline_ns = i.deadline_ns;
}

abbrev pub for_mapper : WorkflowIntent → QosMapper.WorkflowIntent
for_mapper i = record {
  max_tokens = i.max_tokens;
  max_cost_microunits = i.max_cost_microunits;
  fallback_template_id = i.fallback_template_id;
}

abbrev pub for_plan : WorkflowIntent → Dag.WorkflowIntent
for_plan i = record { max_tokens = i.max_tokens; deadline_ns = i.deadline_ns }

-- The cause of a failed workflow, before it is printed.
pub data FailedReason : Type 0 where
  qos : QosReject → FailedReason

-- The telemetry of QoS is the mapping that it was taken from.
pub record WfRuntime : Type 0 where
  pub intent : WorkflowIntent
  pub graph : PlanGraph
  pub state : Dict NodeProgress
  pub prompts : Dict String
  pub failover : Bool
  pub terminal : Bool
  pub failed_reason : Option FailedReason
  pub qos : Option EffectiveQos
  pub state_rev : ℕ

pub record NodeState : Type 0 where
  pub node_id : String
  pub status : ℕ
  pub attempt_id : ℕ
  pub reason_code : ℕ

pub record WorkflowState : Type 0 where
  pub workflow_id : String
  pub plan_revision : ℕ
  pub state_revision : ℕ
  pub request_id : String
  pub status : ℕ
  pub reason_code : ℕ
  pub nodes : List NodeState
  pub expires_at_ns : ℕ

-- The task that is published for an attempt, less what is the same for all of them.
pub record TaskSpec : Type 0 where
  pub task_id : String
  pub prompt : String
  pub priority : ℤ
  pub deadline_ns : ℕ
  pub model_id : String
  pub target_agent_id : String
  pub max_tokens : ℕ

-- A write to the workflow space, or of a task to the data space.
pub data Message : Type 0 where
  plan_written : String → PlanCandidate → Message
  state_written : WorkflowState → Message
  task_written : TaskSpec → Message

-- The errors of the runtime; `panicked` is an `expect("wf")`.
pub data RuntimeError : Type 0 where
  workflow_space data_space planner : String → RuntimeError
  journal : JournalError → RuntimeError
  dag : Stop → RuntimeError
  unmaterialized : Failure → RuntimeError
  panicked : RuntimeError

pub record EngineRuntime : Type 0 where
  pub store : Journal
  pub workflows : Dict WfRuntime
  pub task_index : Dict (String × String)
  pub written : List Message

abbrev pub Step : Type 0 → Type 0
Step A = Method EngineRuntime RuntimeError A

pub record RuntimeConfig (F : Floats) : Type 0 where
  pub decision_policy : DecisionPolicy F
  pub mapper_policy : QosMapperPolicy
  pub failover_enabled : Bool
  pub per_attempt_microunits : ℕ
  pub default_task_deadline_ns : ℕ

abbrev pub set_workflow : String → WfRuntime → Step (Unit {0})
set_workflow wf r = modify (λ rt. record rt { workflows = insert wf r rt.workflows })

abbrev pub failure_code : Option FailedReason → ℕ
failure_code none = 0
failure_code (some r) = 11

abbrev pub node_status : Option NodeProgress → ℕ
node_status none = 2
node_status (some p) = if p.done then 5 else if p.failed then 6 else 2

abbrev pub attempt_of : Option NodeProgress → ℕ
attempt_of none = 0
attempt_of (some p) = p.active_attempt

unfoldable pub node_state : WfRuntime → NodeSpec → NodeState
unfolding lookup
node_state r n = record {
  node_id = n.node_id;
  status = node_status (lookup n.node_id r.state);
  attempt_id = attempt_of (lookup n.node_id r.state);
  reason_code = failure_code r.failed_reason;
}

unfoldable pub workflow_state : String → ℕ → WfRuntime → WorkflowState
unfolding node_state
workflow_state wf status r = record {
  workflow_id = wf;
  plan_revision = r.graph.plan_revision;
  state_revision = r.state_rev;
  request_id = r.intent.request_id;
  status = status;
  reason_code = failure_code r.failed_reason;
  nodes = map (node_state r) r.graph.nodes;
  expires_at_ns = r.intent.deadline_ns;
}

-- The first workflow of a request, in the order of the table.
unfoldable pub pending_intent_for : String → Dict WfRuntime → Option (String × WfRuntime)
pending_intent_for request_id [] = none
pending_intent_for request_id ((wf, r) ∷ rest) =
    if str_eq r.intent.request_id request_id
    then some (wf, r)
    else pending_intent_for request_id rest

abbrev pub verdict_name : Verdict → String
verdict_name (accept required chosen priority shadow below) = "accept"
verdict_name (error code) = "error"
verdict_name (reject r) = "reject"

abbrev pub is_shadowed : Verdict → Bool
is_shadowed (accept required chosen priority shadow below) = shadow
is_shadowed _ = false

abbrev pub telemetry : QosMapping → Option EffectiveQos
telemetry (applied e) = some e
telemetry (rejected r) = none

unfoldable pub mapping_of : Verdict → WorkflowIntent → QosMapperPolicy → QosMapping
unfolding map_verdict map_fallback
mapping_of (accept required chosen priority shadow below) intent policy =
    map_verdict (accept required chosen priority shadow below) (for_mapper intent) policy
mapping_of _ intent policy = map_fallback (for_mapper intent) policy

-- The prompts of the nodes; the last of a name stands.
unfoldable pub prompts_of : List CandidateNode → Dict String → Dict String
unfolding insert
prompts_of [] prompts = prompts
prompts_of (n ∷ ns) prompts = prompts_of ns (insert n.node_id n.prompt_template prompts)

abbrev pub admission : {F : Floats} → WorkflowIntent → RoutingDecision F → Verdict → Admission
admission i d v = record {
  workflow_id = i.workflow_id;
  request_id = i.request_id;
  decision_id = d.decision_id;
  payload_hash = d.payload_hash;
  verdict = verdict_name v;
  budget_microunits = i.max_cost_microunits;
  max_tokens = i.max_tokens;
  prompt = i.prompt;
  created_at_ns = i.created_at_ns;
  deadline_ns = i.deadline_ns;
  intent_revision = i.intent_revision;
  questions_revision = i.questions_revision;
  policy_revision = i.policy_revision;
  capability_catalog_revision = i.capability_catalog_revision;
  checkpoint_revision = i.checkpoint_revision;
}

abbrev pub journal_reply :
    {A : Type 0}
    → EngineRuntime
    → Journal × Result JournalError A
    → EngineRuntime × Result RuntimeError A
journal_reply rt (j, ok a) = (record rt { store = j }, ok a)
journal_reply rt (j, err e) = (record rt { store = j }, err (journal e))

abbrev pub on_journal : {A : Type 0} → Method Journal JournalError A → Step A
on_journal m rt = journal_reply rt (m rt.store)
