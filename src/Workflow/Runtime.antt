-- ===== src/Workflow/Runtime.antt =====
-- The intake of intents and decisions: crates/workflow-engine/src/runtime.rs. The runtime holds the
-- journal, the workflows by id and what it wrote to the workflow space.
pub mod State
pub mod Intake
pub mod Scheduler
pub mod Spending
unfoldable pub use State.*
use dds_llm_orchestrator.Base.{
  ℕ, ℤ, pos, ◌+◌, String, Bool, true, false, ◌||◌, Option, none, some, Result, ok, err, Method,
  ◌>>=◌, ◌>>◌, pure, modify, List, [], ◌∷◌, map, if◌then◌else◌, ltb, ◌==◌, str_eq, u32, ◌&&◌,
}
use dds_llm_orchestrator.Base.Dict.{Dict, lookup, insert, contains_key}
use dds_llm_orchestrator.Dag as Dag
use dds_llm_orchestrator.Dag.{CandidateNode, PlanCandidate, Stop, validate_candidate}
use dds_llm_orchestrator.Workflow.Journal.{admit_workflow}
use dds_llm_orchestrator.Workflow.Journal.Rows.{
  Journal, JournalError, Admission, AdmitOutcome, admitted, replay, conflict,
}
use dds_llm_orchestrator.Workflow.Graph.{NodeSpec, PlanGraph, graph_from_candidate}
use dds_llm_orchestrator.Workflow.Engine.{NodeProgress}
use dds_llm_orchestrator.Workflow.Engine.Recovery.{recover}
use dds_llm_orchestrator.Workflow.Decision as Decision
use dds_llm_orchestrator.Workflow.Decision.{
  Floats, RoutingDecision, DecisionPolicy, Verdict, accept, error, reject, validate,
}
use dds_llm_orchestrator.Workflow.QosMapper as QosMapper
use dds_llm_orchestrator.Workflow.QosMapper.{
  EffectiveQos, QosReject, QosMapping, applied, rejected, QosMapperPolicy, map_verdict,
  map_fallback, is_ordinal,
}

-- The planner, and the error with which the space answers a write, if it does, after those before.
module _ (F : Floats) (plan : String → String → Result String PlanCandidate)
    (refuse : List Message → Message → Option String) where
  unfoldable pub write : Message → Step (Unit {0})
  write msg rt = elim (refuse rt.written msg) [
    | none ↦ (record rt { written = msg ∷ rt.written }, ok tt)
    | some e ↦ (rt, err (workflow_space e))
  ]

  unfoldable pub publish_state : String → ℕ → Step (Unit {0})
  unfolding lookup insert write workflow_state
  publish_state wf status rt = elim (lookup wf rt.workflows) [
    | none ↦ (rt, err panicked)
    | some r ↦
        let r' : WfRuntime = record r { state_rev = u32 (r.state_rev + 1) } in
        (set_workflow wf r' >> write (state_written (workflow_state wf status r'))) rt
  ]

  -- The plan is written with fields of the intent, which the space takes as they are.
  unfoldable pub publish_plan : String → PlanCandidate → Step (Unit {0})
  unfolding write
  publish_plan wf cand = write (plan_written wf cand)

  abbrev pub current_revision : WfRuntime → ℕ
  current_revision r =
      if ltb 0 r.graph.plan_revision then r.graph.plan_revision else r.intent.intent_revision

  unfoldable pub cancel : WorkflowIntent → Step (Unit {0})
  unfolding lookup insert publish_state
  cancel i rt = elim (lookup i.workflow_id rt.workflows) [
    | none ↦ (rt, ok tt)
    | some r ↦
        if (current_revision r == i.expected_plan_revision) || (i.expected_plan_revision == 0)
        then (set_workflow i.workflow_id (record r { terminal = true; failed_reason = none })
              >> publish_state i.workflow_id 6)
            rt
        else (rt, ok tt)
  ]

  unfoldable pub on_intent : RuntimeConfig F → WorkflowIntent → Step (Unit {0})
  unfolding cancel contains_key insert
  on_intent cfg i rt =
      if is_ordinal 1 i.command
      then cancel i rt
      else if contains_key i.workflow_id rt.workflows
      then (rt, ok tt)
      else set_workflow i.workflow_id
          (record {
            intent = i;
            graph = record { workflow_id = i.workflow_id; plan_revision = 0; nodes = [] };
            state = [];
            prompts = [];
            failover = cfg.failover_enabled;
            terminal = false;
            failed_reason = none;
            qos = none;
            state_rev = 0;
          })
          rt

  -- A plan that was accepted: its graph, its progress from the journal, and the writes.
  unfoldable pub adopt :
      RuntimeConfig F → String → WfRuntime → EffectiveQos → PlanCandidate → Step Bool
  unfolding graph_from_candidate recover prompts_of insert publish_plan publish_state
  adopt cfg wf r e cand rt =
      let graph = graph_from_candidate r.intent.workflow_id 1 cand in
      (set_workflow wf (record r {
        graph = graph;
        state = recover rt.store graph;
        prompts = prompts_of cand.nodes [];
        failover = e.failover_retries && cfg.failover_enabled;
        qos = some e;
      })
          >> publish_plan wf cand
          >> publish_state wf 3
          >> pure true)
        rt

  abbrev pub if_valid : Result Stop (Unit {0}) → Step Bool → Step Bool
  if_valid (ok _) rest rt = rest rt
  if_valid (err s) rest rt = (rt, err (dag s))

  unfoldable pub plan_workflow : RuntimeConfig F → String → WfRuntime → EffectiveQos → ℕ → Step Bool
  unfolding validate_candidate adopt
  plan_workflow cfg wf r e now rt = elim (plan r.intent.workflow_id r.intent.prompt) [
    | err t ↦ (rt, err (planner t))
    | ok cand ↦
        if_valid (validate_candidate cand (for_plan r.intent) now) (adopt cfg wf r e cand) rt
  ]

  abbrev pub on_outcome :
      RuntimeConfig F → String → WfRuntime → EffectiveQos → ℕ → AdmitOutcome → Step Bool
  unfolding plan_workflow
  on_outcome cfg wf r e now conflict = pure false
  on_outcome cfg wf r e now replay = pure true
  on_outcome cfg wf r e now admitted = plan_workflow cfg wf r e now

  abbrev pub on_mapping :
      RuntimeConfig F
      → String
      → WfRuntime
      → RoutingDecision F
      → Verdict
      → ℕ
      → QosMapping
      → Step Bool
  unfolding insert publish_state admit_workflow
  on_mapping cfg wf r d v now (rejected cause) =
      set_workflow wf (record r { terminal = true; failed_reason = some (qos cause) })
      >> publish_state wf 5
      >> pure false
  on_mapping cfg wf r d v now (applied e) =
      on_journal (admit_workflow (admission r.intent d v)) >>= on_outcome cfg wf r e now

  -- A decision in the shadow is only observed.
  abbrev pub on_verdict :
      RuntimeConfig F → String → WfRuntime → RoutingDecision F → ℕ → Verdict → Step Bool
  unfolding insert
  on_verdict cfg wf r d now v =
      if is_shadowed v
      then set_workflow wf (record r { qos = telemetry (mapping_of v r.intent cfg.mapper_policy) })
        >> pure false
      else on_mapping cfg wf r d v now (mapping_of v r.intent cfg.mapper_policy)

  abbrev pub on_found :
      RuntimeConfig F → RoutingDecision F → ℕ → ℕ → Option (String × WfRuntime) → Step Bool
  unfolding validate
  on_found cfg d now later none = pure false
  on_found cfg d now later (some (wf, r)) =
      on_verdict cfg wf r d later
        (validate F d (for_decision r.intent) cfg.decision_policy (some now))

  -- `now` and `later` are the two readings of the clock.
  unfoldable pub on_decision : RuntimeConfig F → RoutingDecision F → ℕ → ℕ → Step Bool
  unfolding pending_intent_for on_found
  on_decision cfg d now later rt =
      on_found cfg d now later (pending_intent_for d.request_id rt.workflows) rt
