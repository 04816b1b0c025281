-- ===== src/Tests/Workflows.antt =====
-- Runs of the journal and the engine of crates/workflow-engine/src.
use dds_llm_orchestrator.Base.{
  ◌==◌, Method, ℕ, ◌≤◌, ℤ, pos, ◌+ℤ◌, ◌-ℤ◌, ◌≡◌, refl, arith, String, Bool, true, false, some, ok,
  err, List, [], ◌∷◌, ◌++◌, decimal, numeral, if◌then◌else◌, ◌<◌,
}
use dds_llm_orchestrator.Base.Dict.{Dict, lookup, insert, contains_key, mem}
use dds_llm_orchestrator.Dag.{CandidateNode, PlanCandidate, inference}
use dds_llm_orchestrator.Workflow.Journal.{
  admit_workflow, admit_rows, insert_decision, insert_workflow, insert_intent, within_budget,
  reserve, hold, update_workflow, set_reservation, release_reservation, settle, stored_intents,
}
use dds_llm_orchestrator.Workflow.Journal.Rows.{
  OutboxRow, JournalError, corrupted, Journal, Admission, Reserve, WorkflowRow, ReservationRow,
  consumed_full, replayed, already_consumed, held,
}
use dds_llm_orchestrator.Workflow.Journal.Calls.{
  Call, admit, take, release, call, run, run_ledger, empty_journal, empty_ledger,
}
use dds_llm_orchestrator.Workflow.Journal.Ledger.Amounts.{IsInRange, run-answers}
use dds_llm_orchestrator.Workflow.Journal.Replays.{reserve-replay, run-already_consumed}
use dds_llm_orchestrator.Workflow.Journal.Intents.{intent_of, stored_intents-admit_workflow}
use dds_llm_orchestrator.Workflow.Journal.Attempts.{
  record_attempt, set_state, attempt_state, attempt_at,
}
use dds_llm_orchestrator.Workflow.Journal.Outbox.{outbox_append, next_seq}
use dds_llm_orchestrator.Workflow.Graph.{
  NodeSpec, PlanGraph, node, find_node, node_from_candidate, graph_from_candidate, laya1_task_id,
}
use dds_llm_orchestrator.Workflow.Engine.{
  NodeProgress, World, materialize, materialize_node, publish_attempt, issue, on_done, on_failed,
  close_attempt, retry_or_give_up, returned, already_done,
}
use dds_llm_orchestrator.Workflow.Engine.Recovery.{
  recover, recover_nodes, recover_node, read_attempts, read_state,
}
use dds_llm_orchestrator.Workflow.Engine.Events.{Event, publish, lose, event, run_events}
use dds_llm_orchestrator.Workflow.Engine.Attempts.{run_events-attempts}
use dds_llm_orchestrator.Workflow.Engine.Final.{run_events-final}
use dds_llm_orchestrator.Workflow.Engine.Spending.{SpendsWithin, run_events-within_budget}
use dds_llm_orchestrator.Workflow.Engine.Late.{Refuses, run_events-late}
use dds_llm_orchestrator.Workflow.Engine.Restart.{IsOpen, Closed, closes, recover_node-Closed}

abbrev admission_w : Admission
admission_w = record {
  workflow_id = "w";
  request_id = "r";
  decision_id = "d";
  payload_hash = "h";
  verdict = "accept";
  budget_microunits = 100;
  max_tokens = 50;
  prompt = "p";
  created_at_ns = 1;
  deadline_ns = 9;
  intent_revision = 1;
  questions_revision = 1;
  policy_revision = 1;
  capability_catalog_revision = 1;
  checkpoint_revision = "";
}

abbrev request : String → ℕ → Reserve
request key microunits = record {
  workflow_id = "w";
  idempotency_key = key;
  purpose = "planner";
  tokens = 10;
  microunits = microunits;
}

abbrev spending : List Call
spending =
    admit admission_w
    ∷ take (request "a" 60)
    ∷ take (request "b" 60)
    ∷ release "a" (some 10)
    ∷ take (request "b" 60)
    ∷ []

run-answers_example :
    ((run spending empty_journal).1 ≡ (run_ledger spending empty_ledger).1)
    × IsInRange (run spending empty_journal).0
run-answers_example =
    run-answers spending (tt, (omega arith, (omega arith, (omega arith, (omega arith, tt)))))

abbrev row_w : ℤ → ℤ → WorkflowRow
row_w held_back spent = record {
  request_id = "r";
  budget_microunits = pos 100;
  budget_reserved = held_back;
  budget_consumed = spent;
  max_tokens = pos 50;
  status = "accepted";
}

abbrev admitted_w : Journal
admitted_w = record empty_journal { workflows = ("w", row_w (pos 0) (pos 0)) ∷ [] }

abbrev reservation_a : ReservationRow
reservation_a = record {
  workflow_id = "w";
  purpose = "planner";
  tokens_reserved = pos 10;
  microunits_reserved = pos 60;
  state = held;
}

abbrev holding_w : Journal
holding_w = record empty_journal {
  workflows = ("w", row_w (pos 60) (pos 0)) ∷ [];
  reservations = ("a", reservation_a) ∷ [];
}

reserve-replay_example : reserve (request "a" 70) holding_w ≡ (holding_w, ok (replayed 10))
unfolding reserve hold update_workflow set_reservation within_budget lookup insert ◌+ℤ◌ ◌-ℤ◌
reserve-replay_example =
    reserve-replay (request "a" 60) (request "a" 70) admitted_w holding_w 10 60 (omega arith) refl
      refl

abbrev spent_w : Journal
spent_w = record empty_journal {
  workflows = ("w", row_w (pos 0) (pos 60)) ∷ [];
  reservations = ("a", record reservation_a { state = consumed_full }) ∷ [];
}

run-already_consumed_example :
    reserve (request "a" 60) (run spending spent_w).0
    ≡ ((run spending spent_w).0, ok already_consumed)
unfolding lookup
run-already_consumed_example =
    run-already_consumed spending spent_w "a" (record reservation_a { state = consumed_full })
      (request "a" 60) refl (ground arith) refl

stored_intents-admit_workflow_example :
    stored_intents (admit_workflow admission_w empty_journal).0
    ≡ stored_intents empty_journal ++ intent_of admission_w ∷ []
unfolding lookup
stored_intents-admit_workflow_example =
    stored_intents-admit_workflow admission_w empty_journal
      (record {
        created = omega arith;
        deadline = omega arith;
        tokens = omega arith;
        budget = omega arith;
        intent = omega arith;
        questions = omega arith;
        policy = omega arith;
        catalog = omega arith;
      })
      refl refl refl (omega arith)

abbrev step_node : String → List String → CandidateNode
step_node id dependencies = record {
  node_id = id;
  kind = inference;
  required_capabilities = "research" ∷ [];
  model_id = "m";
  target_agent_id = "";
  prompt_template = "";
  dependencies = dependencies;
  output_names = "out" ∷ [];
  inputs = [];
  max_attempts = 2;
  max_tokens = 10;
  output_bytes = 1000;
  deadline_ns = 0;
  priority = pos 5;
  side_effect_key = "";
}

abbrev two_steps : PlanCandidate
two_steps = record {
  planner_id = "p";
  planner_revision = "1";
  planner_tokens = 10;
  nodes = step_node "a" [] ∷ step_node "b" ("a" ∷ []) ∷ [];
}

abbrev plan : PlanGraph
plan = graph_from_candidate "w" 1 two_steps

abbrev spec_a : NodeSpec
spec_a = record {
  node_id = "a";
  dependencies = [];
  output_names = "out" ∷ [];
  max_attempts = 2;
  max_tokens = 10;
  priority = pos 5;
  model_id = "m";
  target_agent_id = "";
}

abbrev spec_b : NodeSpec
spec_b = record spec_a { node_id = "b"; dependencies = "a" ∷ [] }

abbrev plain : String → String
plain s = s

abbrev working : List Event
working = publish "a" 30 ∷ lose "a" 1 true ∷ publish "a" 30 ∷ []

abbrev results : List (String × String)
results = ("out", "sha") ∷ []

abbrev progress_of : ℕ → Bool → NodeProgress
progress_of attempt finished = record {
  active_attempt = attempt;
  done = finished;
  failed = false;
  in_doubt = false;
  outputs = if finished then results else [];
}

run_events-attempts_example : 2 ≤ 2
unfolding graph_from_candidate node_from_candidate node find_node lookup insert recover
    recover_nodes recover_node read_attempts read_state attempt_state attempt_at run_events event
    materialize materialize_node publish_attempt issue record_attempt set_state outbox_append
    next_seq on_failed close_attempt retry_or_give_up reserve hold update_workflow set_reservation
    release_reservation settle within_budget laya1_task_id decimal numeral contains_key mem ◌+ℤ◌
    ◌-ℤ◌
run_events-attempts_example =
    run_events-attempts plain true "w" 1 two_steps admitted_w working "a" (progress_of 2 false)
      spec_a (refl, (refl, tt)) refl refl

abbrev finished_a : World
finished_a = record { nodes = ("a", progress_of 1 true) ∷ []; store = admitted_w }

abbrev retried_a : World
retried_a = record { nodes = ("a", progress_of 2 false) ∷ []; store = admitted_w }

run_events-final_example :
    (lookup "a" (run_events plain true plan working finished_a).nodes ≡ some (progress_of 1 true))
    × (materialize plain true plan "a" 30 (run_events plain true plan working finished_a)
        ≡ (run_events plain true plan working finished_a, err (returned (already_done "a"))))
unfolding lookup node find_node graph_from_candidate node_from_candidate
run_events-final_example =
    run_events-final plain true plan working "a" 30 spec_a (progress_of 1 true) finished_a refl refl
      refl

run_events-late_example :
    Refuses
      (on_done plain true plan "a" 1 results (run_events plain true plan working retried_a))
      (run_events plain true plan working retried_a)
    × Refuses
        (on_failed plain true plan "a" 1 true (run_events plain true plan working retried_a))
        (run_events plain true plan working retried_a)
unfolding lookup
run_events-late_example =
    run_events-late plain true plan working "a" 1 results true (progress_of 2 false) retried_a refl
      (omega arith)

abbrev one_order : Dict NodeProgress
one_order = ("a", progress_of 1 true) ∷ ("b", progress_of 1 false) ∷ []

-- The first attempt failed and the second is under way.
abbrev retried_rows : Journal
retried_rows = record empty_journal {
  attempts =
      record { workflow_id = "w"; node_id = "a"; attempt = 1; task_id = "t1"; state = "failed" }
      ∷ record {
        workflow_id = "w";
        node_id = "a";
        attempt = 2;
        task_id = "t2";
        state = "published";
      }
      ∷ [];
}

none_before : (i : ℕ) → 1 ≤ i → i < 1 → IsOpen retried_rows "w" "a" i
none_before i h h' = absurd (omega arith)

recover_node-Closed_example : Closed 1 "failed" (recover_node retried_rows "w" spec_a)
unfolding attempt_state attempt_at closes
recover_node-Closed_example =
    recover_node-Closed retried_rows "w" spec_a 1 "failed" (omega arith) (omega arith) refl refl
      none_before

abbrev outbox_row : ℕ → Bool → OutboxRow
outbox_row seq out = record {
  seq = seq;
  workflow_id = "w";
  kind = "publish_task";
  payload = "{}";
  published = out;
}

abbrev queued_w : Journal
queued_w = record empty_journal {
  outbox = outbox_row 1 true ∷ outbox_row 2 false ∷ outbox_row 3 false ∷ [];
}

-- A transport that takes one message.
abbrev takes_one : String → String → Method ℕ JournalError (Unit {0})
takes_one kind payload n = if n == 0 then (1, ok tt) else (n, err (corrupted "full"))

run_events-within_budget_example :
    SpendsWithin "w"
      (row_w (pos 60) (pos 40))
      (run_events plain true plan working
        (record { nodes = []; store = (run spending empty_journal).0 })).store
unfolding run call admit_workflow admit_rows insert_decision insert_workflow insert_intent
    graph_from_candidate node_from_candidate node find_node lookup insert run_events event
    materialize materialize_node publish_attempt issue record_attempt set_state attempt_at
    outbox_append next_seq on_failed close_attempt retry_or_give_up reserve hold update_workflow
    set_reservation release_reservation settle within_budget laya1_task_id decimal numeral
    contains_key mem ◌+ℤ◌ ◌-ℤ◌
run_events-within_budget_example =
    run_events-within_budget plain true plan spending [] working "w" (row_w (pos 60) (pos 40))
      (tt, (omega arith, (omega arith, (omega arith, (omega arith, tt)))))
      (omega arith, (tt, (omega arith, tt))) refl
