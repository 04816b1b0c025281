-- ===== src/Tests/Tasks.antt =====
-- Runs of crates/orchestrator/src/state_machine.rs, crates/orchestrator/src/dds.rs and
-- crates/agent/src/claim.rs.
use dds_llm_orchestrator.Base.{
  ◌+◌, ◌≤◌, ◌≡◌, ◌⊎◌, refl, arith, pos, true, false, ok, err, none, List, [], ◌∷◌,
}
use dds_llm_orchestrator.Base.Dict.{mem}
use dds_llm_orchestrator.Task.{
  Task, TaskStatus, failed, to_wire, transition, TransitionError, reassign, Call, assigns, starts,
  reassigns, step, run,
}
use dds_llm_orchestrator.Task.Diagram.{◌⟶◌, transition_exact}
use dds_llm_orchestrator.Task.History.{
  step_follows, step_failed_unchanged, requeues_bounded, requeues,
}
use dds_llm_orchestrator.Claim.{ClaimConfig, vision}
use dds_llm_orchestrator.Reaper.{World, OrchestratorDds, MonitorEvent, heartbeat, interval, monitor}
use dds_llm_orchestrator.Reaper.Deadlines.{DeadlineWatch, check_task_deadlines}
use dds_llm_orchestrator.Reaper.Deadlines.Reports.{occurrences, check_task_deadlines_once}
use dds_llm_orchestrator.Reaper.Writes.{IsSafe, monitor-IsSafe}

abbrev job : Task
job = record {
  task_id = "t1";
  client_id = "c1";
  assigned_agent = "";
  target_agent = "";
  model_required = pos 0;
  model_name = "llama";
  messages_json = "[]";
  temperature = 0;
  max_tokens = 100;
  stream = false;
  status = pos 0;
  priority = pos 5;
  created_at_ns = 1000;
  assigned_at_ns = 0;
  started_at_ns = 0;
  completed_at_ns = 0;
  deadline_ns = 0;
  retry_count = 0;
  finish_reason = "";
  t_serialization_ns = 0;
  t_transport_send_ns = 0;
  t_agent_queue_ns = 0;
  t_inference_ns = 0;
  t_transport_return_ns = 0;
  t_deserialization_ns = 0;
}

abbrev running_job : Task
running_job = record job { status = pos 2; assigned_agent = "a1"; started_at_ns = 5 }

abbrev failed_job : Task
failed_job = record job { status = pos 4; completed_at_ns = 7; finish_reason = "ERROR" }

transition_exact_example :
    ((s : TaskStatus) × (running_job.status ≡ to_wire s)
      × (s ⟶ failed)
      × (transition failed running_job ≡ (record running_job { status = to_wire failed }, ok tt)))
    ⊎ (((s : TaskStatus) → running_job.status ≡ to_wire s → ¬ (s ⟶ failed))
        × (e : TransitionError) × (transition failed running_job ≡ (running_job, err e)))
transition_exact_example = transition_exact running_job failed

step_follows_example :
    (s u : TaskStatus) × (running_job.status ≡ to_wire s)
    × ((step (reassigns 3 50) running_job).0.status ≡ to_wire u)
    × (s ⟶ u)
unfolding step reassign
step_follows_example = step_follows (reassigns 3 50) running_job refl

step_failed_unchanged_example : (step (starts 9) failed_job).0 ≡ failed_job
unfolding step
step_failed_unchanged_example = step_failed_unchanged (starts 9) failed_job refl

abbrev twice : List Call
twice = reassigns 1 50 ∷ assigns "a2" 60 ∷ reassigns 1 70 ∷ []

requeues_bounded_example :
    ((run twice running_job).retry_count ≡ running_job.retry_count + requeues twice running_job)
    × (running_job.retry_count + requeues twice running_job ≤ 1)
requeues_bounded_example =
    requeues_bounded 1 twice running_job (omega arith) (refl, (refl, tt)) (omega arith)

abbrev worker : ClaimConfig
worker = record { agent_id = "a1"; specialization = vision; target_agent_prefix = "gpu-" }

abbrev world : World
world = record {
  now_ns = 100000000000;
  instant = 100000000000;
  write_succeeds = λ t. true;
  read_task_mesh = λ id. none;
}

abbrev nothing_yet : OrchestratorDds
nothing_yet = record {
  last_seen = ("a1", 0) ∷ [];
  pending_reassignment = ("t1", (job, 5)) ∷ [];
  published = [];
  violations = [];
}

abbrev idle : OrchestratorDds
idle = record { last_seen = []; pending_reassignment = []; published = []; violations = [] }

abbrev events : List MonitorEvent
events = heartbeat "a1" 0 ∷ interval world (running_job ∷ []) world (job ∷ []) world ∷ []

monitor-IsSafe_example : IsSafe (monitor 30000000000 events idle)
monitor-IsSafe_example =
    monitor-IsSafe 30000000000 events idle (record { writes = tt; waiting = tt })

abbrev late : Task
late = record running_job { deadline_ns = 2000 }

abbrev watch : DeadlineWatch
watch = record { reported = "t1" ∷ []; missed = "t1" ∷ [] }

check_task_deadlines_once_example :
    let w' =
      check_task_deadlines
        (λ ks. ks)
        (λ id. false)
        3000
        (record late { status = pos 3 } ∷ record late { task_id = "t2" } ∷ [])
        watch in
    (mem "t1" w'.reported ≡ true) × (occurrences "t1" w'.missed ≡ occurrences "t1" watch.missed)
unfolding mem
check_task_deadlines_once_example =
    check_task_deadlines_once (λ ks. ks) (λ id. false) 3000
      (record late { status = pos 3 } ∷ record late { task_id = "t2" } ∷ []) "t1" watch
      (omega arith) refl
