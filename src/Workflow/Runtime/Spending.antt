-- ===== src/Workflow/Runtime/Spending.antt =====
-- What the runtime of crates/workflow-engine/src/runtime.rs admits and reserves in the journal.
use dds_llm_orchestrator.Base.{
  ℕ, ◌+◌, u32, String, Bool, true, ◌≡◌, sym, subst, Option, none, some, inl, inr, Result, ok, err,
  ◌>>=◌, ◌>>◌, pure, List, [], ◌∷◌,
}
use dds_llm_orchestrator.Base.Dict.{lookup, contains_key, keys}
use dds_llm_orchestrator.Base.Keeps.{Keeps, Keeps-then, Keeps-bind, keeps_lookup, keeps_test}
use dds_llm_orchestrator.Dag.{PlanCandidate}
use dds_llm_orchestrator.Workflow.Graph.{NodeSpec, node}
use dds_llm_orchestrator.Workflow.Journal.Rows.{WorkflowRow}
use dds_llm_orchestrator.Workflow.Journal.Calls.{empty_journal}
use dds_llm_orchestrator.Workflow.Engine.{World, Failure}
use dds_llm_orchestrator.Workflow.Engine.Moves.{materialize-Q}
use dds_llm_orchestrator.Workflow.Engine.Spending.{
  FitsI64, SpendsWithin, Sound, Write-Sound, admit_workflow-Sound, empty-Sound, Sound-budget,
}
use dds_llm_orchestrator.Workflow.Decision.{Floats, RoutingDecision}
use dds_llm_orchestrator.Workflow.QosMapper.{is_ordinal}
use dds_llm_orchestrator.Workflow.Runtime.{
  WorkflowIntent, WfRuntime, Message, EngineRuntime, RuntimeConfig, TaskSpec, Step, set_workflow,
  task_written, write, publish_state, cancel, on_intent, on_decision,
}
use dds_llm_orchestrator.Workflow.Runtime.Intake.{Recorded, on_decision-Recorded}
use dds_llm_orchestrator.Workflow.Runtime.Scheduler.{
  task_of, publish_task, publish_found, publish_node, on_materialized, schedule_node,
  schedule_nodes, schedule_workflow, schedule_all, tick_scheduler, counted,
}

-- The journal of a runtime is sound.
abbrev Solvent : EngineRuntime → Type 0
Solvent rt = Sound rt.store

counted-Solvent : (m k : Step ℕ) → Keeps Solvent m → Keeps Solvent k → Keeps Solvent (counted m k)
counted-Solvent m k hm hk =
    Keeps-bind Solvent m (λ n. k >>= λ rest. pure (n + rest)) hm
      λ n. Keeps-bind Solvent k (λ rest. pure (n + rest)) hk (λ rest rt s. s)

module _ (F : Floats) (digest : String → String) (foreign_keys : Bool)
    (plan : String → String → Result String PlanCandidate)
    (refuse : List Message → Message → Option String) (cfg : RuntimeConfig F) where
  write-Solvent : (msg : Message) → Keeps Solvent (write F plan refuse msg)
  unfolding write
  write-Solvent msg rt s = keeps_lookup Solvent (refuse rt.written msg) _ _ s (λ e. s)

  publish_state-Solvent :
      (wf : String) (status : ℕ) → Keeps Solvent (publish_state F plan refuse wf status)
  unfolding publish_state
  publish_state-Solvent wf status rt s = keeps_lookup Solvent (lookup wf rt.workflows) _ _ s λ r.
      let r' : WfRuntime = record r { state_rev = u32 (r.state_rev + 1) } in
      Keeps-then Solvent (set_workflow wf r') (write F plan refuse _) (λ _ p. p) (write-Solvent _)
        rt s

  on_intent-Solvent : (i : WorkflowIntent) → Keeps Solvent (on_intent F plan refuse cfg i)
  unfolding on_intent cancel
  on_intent-Solvent i rt s =
      keeps_test Solvent (is_ordinal 1 i.command) _ _
        (keeps_lookup Solvent (lookup i.workflow_id rt.workflows) _ _ s λ r.
          let ended : WfRuntime = record r { terminal = true; failed_reason = none } in
          keeps_test Solvent _ _ _
            (Keeps-then Solvent (set_workflow i.workflow_id ended)
              (publish_state F plan refuse i.workflow_id 6) (λ _ p. p)
              (publish_state-Solvent i.workflow_id 6) rt s)
            s)
        (keeps_test Solvent (contains_key i.workflow_id rt.workflows) _ _ s s)

  on_decision-Solvent :
      (d : RoutingDecision F) (now later : ℕ)
      → Keeps Solvent (on_decision F plan refuse cfg d now later)
  unfolding Recorded
  on_decision-Solvent d now later rt s =
      elim (on_decision-Recorded F plan refuse cfg d now later rt) [
        | inl same ↦ subst Sound (sym same) s
        | inr (wf, r, found, entered, licence) ↦
            subst Sound (sym entered) (admit_workflow-Sound _ rt.store s)
      ]

  module _ (now : ℕ) (fits : FitsI64 cfg.per_attempt_microunits) where
    publish_task-Solvent :
        (t : TaskSpec) → Keeps Solvent (publish_task F digest foreign_keys plan refuse cfg now t)
    unfolding publish_task
    publish_task-Solvent t rt s =
        keeps_lookup Solvent (refuse rt.written (task_written t)) _ _ s (λ e. s)

    publish_found-Solvent :
        (wf : String) (r : WfRuntime) (task_id : String) (o : Option NodeSpec)
        → Keeps Solvent (publish_found F digest foreign_keys plan refuse cfg now wf r task_id o)
    unfolding publish_found
    publish_found-Solvent wf r task_id none rt s = s
    publish_found-Solvent wf r task_id (some n) rt s =
        let task =
          publish_task F digest foreign_keys plan refuse cfg now
            (task_of F digest foreign_keys plan refuse cfg now r n task_id) in
        let shown = publish_state F plan refuse wf 3 in
        Keeps-then Solvent (task >> shown) (pure 1)
          (Keeps-then Solvent task shown (publish_task-Solvent _) (publish_state-Solvent wf 3))
          (λ _ p. p) rt s

    on_materialized-Solvent :
        (wf : String) (r : WfRuntime) (id : String) (x : World × Result Failure String)
        (rt : EngineRuntime)
        → Sound x.0.store
        → Solvent (on_materialized F digest foreign_keys plan refuse cfg now wf r id x rt).0
    unfolding on_materialized publish_node
    on_materialized-Solvent wf r id (w, ok task_id) rt s =
        keeps_test Solvent (contains_key task_id rt.task_index) _ _ s
          (publish_found-Solvent wf r task_id (node id r.graph) _ s)
    on_materialized-Solvent wf r id (w, err e) rt s = s

    schedule_node-Solvent :
        (wf id : String)
        → Keeps Solvent (schedule_node F digest foreign_keys plan refuse cfg now wf id)
    unfolding schedule_node
    schedule_node-Solvent wf id rt s = keeps_lookup Solvent (lookup wf rt.workflows) _ _ s λ r.
        on_materialized-Solvent wf r id _ rt (
          materialize-Q digest foreign_keys r.graph FitsI64 (λ w. Sound w.store)
            (λ id spec w n e p. p) (λ id spec p p' w n e m q. q)
            (λ w j m q. Write-Sound foreign_keys w.store j m q) id cfg.per_attempt_microunits fits
            (record { nodes = r.state; store = rt.store }) s)

    schedule_nodes-Solvent :
        (wf : String) (ids : List String)
        → Keeps Solvent (schedule_nodes F digest foreign_keys plan refuse cfg now wf ids)
    unfolding schedule_nodes
    schedule_nodes-Solvent wf [] rt s = s
    schedule_nodes-Solvent wf (id ∷ ids) rt s =
        counted-Solvent (schedule_node F digest foreign_keys plan refuse cfg now wf id)
          (schedule_nodes F digest foreign_keys plan refuse cfg now wf ids)
          (schedule_node-Solvent wf id) (schedule_nodes-Solvent wf ids) rt s

    schedule_workflow-Solvent :
        (wf : String)
        → Keeps Solvent (schedule_workflow F digest foreign_keys plan refuse cfg now wf)
    unfolding schedule_workflow
    schedule_workflow-Solvent wf rt s =
        keeps_lookup Solvent (lookup wf rt.workflows) _ _ s
          λ r. keeps_test Solvent r.terminal _ _ s (schedule_nodes-Solvent wf _ rt s)

    schedule_all-Solvent :
        (wfs : List String)
        → Keeps Solvent (schedule_all F digest foreign_keys plan refuse cfg now wfs)
    unfolding schedule_all
    schedule_all-Solvent [] rt s = s
    schedule_all-Solvent (wf ∷ wfs) rt s =
        counted-Solvent (schedule_workflow F digest foreign_keys plan refuse cfg now wf)
          (schedule_all F digest foreign_keys plan refuse cfg now wfs)
          (schedule_workflow-Solvent wf) (schedule_all-Solvent wfs) rt s

    tick_scheduler-Solvent :
        Keeps Solvent (tick_scheduler F digest foreign_keys plan refuse cfg now)
    unfolding tick_scheduler
    tick_scheduler-Solvent rt s = schedule_all-Solvent (keys rt.workflows) rt s

-- A runtime on an empty database that follows no workflow.
abbrev pub fresh : EngineRuntime
fresh = record { store = empty_journal; workflows = []; task_index = []; written = [] }

-- What happens to a runtime: an intent or a decision arrives, or the scheduler ticks.
pub data Input (F : Floats) : Type 0 where
  intent_arrives : WorkflowIntent → Input F
  decision_arrives : RoutingDecision F → ℕ → ℕ → Input F
  ticks : ℕ → Input F

module _ (F : Floats) (digest : String → String) (foreign_keys : Bool)
    (plan : String → String → Result String PlanCandidate)
    (refuse : List Message → Message → Option String) (cfg : RuntimeConfig F) where
  unfoldable pub input : Input F → EngineRuntime → EngineRuntime
  unfolding on_intent on_decision tick_scheduler
  input (intent_arrives i) rt = (on_intent F plan refuse cfg i rt).0
  input (decision_arrives d now later) rt = (on_decision F plan refuse cfg d now later rt).0
  input (ticks now) rt = (tick_scheduler F digest foreign_keys plan refuse cfg now rt).0

  unfoldable pub run_inputs : List (Input F) → EngineRuntime → EngineRuntime
  unfolding input
  run_inputs [] rt = rt
  run_inputs (x ∷ xs) rt = run_inputs xs (input x rt)

  input-Solvent :
      (x : Input F) (rt : EngineRuntime)
      → FitsI64 cfg.per_attempt_microunits
      → Solvent rt
      → Solvent (input x rt)
  unfolding input
  input-Solvent (intent_arrives i) rt fits =
      on_intent-Solvent F digest foreign_keys plan refuse cfg i rt
  input-Solvent (decision_arrives d now later) rt fits =
      on_decision-Solvent F digest foreign_keys plan refuse cfg d now later rt
  input-Solvent (ticks now) rt fits =
      tick_scheduler-Solvent F digest foreign_keys plan refuse cfg now fits rt

  run_inputs-Solvent :
      (xs : List (Input F)) (rt : EngineRuntime)
      → FitsI64 cfg.per_attempt_microunits
      → Solvent rt
      → Solvent (run_inputs xs rt)
  unfolding run_inputs
  run_inputs-Solvent [] rt fits s = s
  run_inputs-Solvent (x ∷ xs) rt fits s =
      run_inputs-Solvent xs (input x rt) fits (input-Solvent x rt fits s)

  -- From an empty database, where an attempt reserves less than 2^63 microunits, whatever intents and
  -- decisions arrive and however often the scheduler ticks, whatever the planner answers and the
  -- spaces refuse: what is held for a workflow and what it was charged come to no more than its
  -- budget. No reservation is negative, and what every workflow has reserved and consumed stays
  -- between 0 and its budget.
  pub run_inputs-within_budget :
      (xs : List (Input F)) (wf : String) (r : WorkflowRow)
      → FitsI64 cfg.per_attempt_microunits
      → lookup wf (run_inputs xs fresh).store.workflows ≡ some r
      → SpendsWithin wf r (run_inputs xs fresh).store
  run_inputs-within_budget xs wf r fits e =
      Sound-budget _ wf r (run_inputs-Solvent xs fresh fits empty-Sound) e
