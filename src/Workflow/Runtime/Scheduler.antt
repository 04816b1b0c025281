-- ===== src/Workflow/Runtime/Scheduler.antt =====
-- The tick of the scheduler: `tick_scheduler` of crates/workflow-engine/src/runtime.rs. The journal
-- and the progress of a workflow are the world of its engine.
use dds_llm_orchestrator.Base.{
  ℕ, ◌+◌, String, Bool, true, false, Option, none, some, Result, ok, err, ◌>>=◌, ◌>>◌, pure, List,
  [], ◌∷◌, map, if◌then◌else◌, ltb, leb,
}
use dds_llm_orchestrator.Base.Dict.{lookup, insert, contains_key, keys}
use dds_llm_orchestrator.Dag.{PlanCandidate}
use dds_llm_orchestrator.Workflow.Graph.{NodeSpec, node, ready_nodes}
use dds_llm_orchestrator.Workflow.Engine.{
  World, Failure, already_done, reservation_consumed, returned, done_set, materialize,
}
use dds_llm_orchestrator.Workflow.Decision.{Floats}
use dds_llm_orchestrator.Workflow.Runtime.{
  WfRuntime, EngineRuntime, RuntimeConfig, TaskSpec, Message, Step, data_space, unmaterialized,
  panicked, task_written, publish_state,
}

-- The errors of `materialize` after which the tick goes on.
abbrev pub skips : Failure → Bool
skips (returned (already_done id)) = true
skips (returned (reservation_consumed id attempt)) = true
skips _ = false

abbrev prompt_of : WfRuntime → String → String
unfolding lookup
prompt_of r id = elim (lookup id r.prompts) [ none ↦ r.intent.prompt | some p ↦ p ]

-- Two parts of a loop, each with what it published.
abbrev pub counted : Step ℕ → Step ℕ → Step ℕ
counted m k = m >>= λ n. k >>= λ rest. pure (n + rest)

abbrev u32_max : ℕ
u32_max = 4294967295

module _ (F : Floats) (digest : String → String) (foreign_keys : Bool)
    (plan : String → String → Result String PlanCandidate)
    (refuse : List Message → Message → Option String) (cfg : RuntimeConfig F) (now : ℕ) where
  abbrev pub deadline_of : WfRuntime → ℕ
  deadline_of r =
      if ltb 0 r.intent.deadline_ns
      then r.intent.deadline_ns
      else now + cfg.default_task_deadline_ns

  unfoldable pub task_of : WfRuntime → NodeSpec → String → TaskSpec
  unfolding prompt_of
  task_of r n task_id = record {
    task_id = task_id;
    prompt = prompt_of r n.node_id;
    priority = n.priority;
    deadline_ns = deadline_of r;
    model_id = n.model_id;
    target_agent_id = n.target_agent_id;
    max_tokens = if leb n.max_tokens u32_max then n.max_tokens else u32_max;
  }

  unfoldable pub publish_task : TaskSpec → Step (Unit {0})
  publish_task t rt = elim (refuse rt.written (task_written t)) [
    | none ↦ (record rt { written = task_written t ∷ rt.written }, ok tt)
    | some e ↦ (rt, err (data_space e))
  ]

  unfoldable pub publish_found : String → WfRuntime → String → Option NodeSpec → Step ℕ
  unfolding task_of publish_task publish_state
  publish_found wf r task_id none rt = (rt, err panicked)
  publish_found wf r task_id (some n) rt =
      (publish_task (task_of r n task_id) >> publish_state F plan refuse wf 3 >> pure 1) rt

  -- A task that is not yet in the index is published.
  unfoldable pub publish_node : String → WfRuntime → String → String → Step ℕ
  unfolding contains_key insert node publish_found
  publish_node wf r id task_id rt =
      if contains_key task_id rt.task_index
      then (rt, ok 0)
      else publish_found wf r task_id (node id r.graph)
          (record rt { task_index = insert task_id (wf, id) rt.task_index })

  -- The engine of a workflow on its world, written back.
  abbrev pub materialized : String → WfRuntime → World → EngineRuntime → EngineRuntime
  unfolding insert
  materialized wf r w rt = record rt {
    store = w.store;
    workflows = insert wf (record r { state = w.nodes }) rt.workflows;
  }

  unfoldable pub on_materialized :
      String → WfRuntime → String → World × Result Failure String → Step ℕ
  unfolding publish_node
  on_materialized wf r id (w, ok task_id) rt = publish_node wf r id task_id (materialized wf r w rt)
  on_materialized wf r id (w, err e) rt =
      (materialized wf r w rt, if skips e then ok 0 else err (unmaterialized e))

  unfoldable pub schedule_node : String → String → Step ℕ
  unfolding lookup materialize on_materialized
  schedule_node wf id rt = elim (lookup wf rt.workflows) [
    | none ↦ (rt, err panicked)
    | some r ↦
        on_materialized wf r id
          (materialize digest foreign_keys r.graph id cfg.per_attempt_microunits
            (record { nodes = r.state; store = rt.store }))
          rt
  ]

  unfoldable pub schedule_nodes : String → List String → Step ℕ
  unfolding schedule_node
  schedule_nodes wf [] = pure 0
  schedule_nodes wf (id ∷ ids) = counted (schedule_node wf id) (schedule_nodes wf ids)

  unfoldable pub schedule_workflow : String → Step ℕ
  unfolding lookup done_set ready_nodes schedule_nodes
  schedule_workflow wf rt = elim (lookup wf rt.workflows) [
    | none ↦ (rt, err panicked)
    | some r ↦
        if r.terminal
        then (rt, ok 0)
        else schedule_nodes wf (map NodeSpec.node_id (ready_nodes (done_set r.state) r.graph)) rt
  ]

  unfoldable pub schedule_all : List String → Step ℕ
  unfolding schedule_workflow
  schedule_all [] = pure 0
  schedule_all (wf ∷ wfs) = counted (schedule_workflow wf) (schedule_all wfs)

  unfoldable pub tick_scheduler : Step ℕ
  unfolding schedule_all
  tick_scheduler rt = schedule_all (keys rt.workflows) rt
