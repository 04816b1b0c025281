-- ===== src/Tests/Intakes.antt =====
-- A run of the runtime of the workflow engine: an intent, its decision, and a tick.
use dds_llm_orchestrator.Base.{
  arith, pos, ◌+ℤ◌, ◌-ℤ◌, String, true, none, Option, ok, Result, refl, List, [], ◌∷◌, decimal,
  numeral,
}
use dds_llm_orchestrator.Base.Dict.{lookup, insert, contains_key, mem}
use dds_llm_orchestrator.Dag.{
  CandidateNode, PlanCandidate, inference, validate_candidate, check_plan, check_nodes, check_node,
  index, measure, visit_all, depth_first, unknown,
}
use dds_llm_orchestrator.Workflow.Graph.{
  graph_from_candidate, node_from_candidate, node, find_node, ready_nodes, is_ready, contains_all,
  laya1_task_id,
}
use dds_llm_orchestrator.Workflow.Journal.{
  admit_workflow, admit_rows, insert_decision, insert_workflow, insert_intent, reserve, hold,
  update_workflow, set_reservation, within_budget,
}
use dds_llm_orchestrator.Workflow.Journal.Rows.{WorkflowRow}
use dds_llm_orchestrator.Workflow.Journal.Attempts.{record_attempt, attempt_state, attempt_at}
use dds_llm_orchestrator.Workflow.Journal.Outbox.{outbox_append, next_seq}
use dds_llm_orchestrator.Workflow.Engine.{
  done_set, materialize, materialize_node, publish_attempt, issue,
}
use dds_llm_orchestrator.Workflow.Engine.Recovery.{
  recover, recover_nodes, recover_node, read_attempts, read_state,
}
use dds_llm_orchestrator.Workflow.Decision.{
  validate, status, profile, weigh, judge, read_qos, read_priorities, read_capabilities,
  best_priority, finite_unit, member, duplicates,
}
use dds_llm_orchestrator.Workflow.QosMapper.{map_verdict, map_objective, pick, estimate_cost}
use dds_llm_orchestrator.Workflow.Runtime.{
  Message, on_decision, on_intent, cancel, publish_state, publish_plan, write, workflow_state,
  node_state, pending_intent_for, mapping_of, prompts_of, adopt, plan_workflow,
}
use dds_llm_orchestrator.Workflow.Runtime.Scheduler.{
  tick_scheduler, schedule_all, schedule_workflow, schedule_nodes, schedule_node, on_materialized,
  publish_node, publish_found, publish_task, task_of,
}
use dds_llm_orchestrator.Workflow.Engine.Spending.{SpendsWithin}
use dds_llm_orchestrator.Workflow.Runtime.Spending.{
  Input, intent_arrives, decision_arrives, ticks, fresh, input, run_inputs,
  run_inputs-within_budget,
}
use dds_llm_orchestrator.Tests.Decisions.{millionths, decision, config, waiting}

abbrev summary : CandidateNode
summary = record {
  node_id = "a";
  kind = inference;
  required_capabilities = "research" ∷ [];
  model_id = "m";
  target_agent_id = "";
  prompt_template = "p";
  dependencies = [];
  output_names = "out" ∷ [];
  inputs = [];
  max_attempts = 2;
  max_tokens = 10;
  output_bytes = 1000;
  deadline_ns = 0;
  priority = pos 5;
  side_effect_key = "";
}

abbrev direct_planner : String → String → Result String PlanCandidate
direct_planner wf prompt =
    ok (record {
      planner_id = "p";
      planner_revision = "1";
      planner_tokens = 10;
      nodes = summary ∷ [];
    })

abbrev every_write : List Message → Message → Option String
every_write before msg = none

abbrev same_text : String → String
same_text s = s

abbrev morning : List (Input millionths)
morning = intent_arrives waiting.intent ∷ decision_arrives decision 500 500 ∷ ticks 500 ∷ []

abbrev held_row : WorkflowRow
held_row = record {
  request_id = "r";
  budget_microunits = pos 10;
  budget_reserved = pos 1;
  budget_consumed = pos 0;
  max_tokens = pos 1000;
  status = "accepted";
}

run_inputs-within_budget_example :
    SpendsWithin "w" held_row
      (run_inputs millionths same_text true direct_planner every_write config morning fresh).store
unfolding run_inputs input on_intent on_decision cancel publish_state publish_plan write
    workflow_state node_state pending_intent_for mapping_of prompts_of adopt plan_workflow
    contains_key insert lookup mem validate status profile weigh judge read_qos read_priorities
    read_capabilities best_priority finite_unit member duplicates unknown map_verdict map_objective
    pick estimate_cost admit_workflow admit_rows insert_decision insert_workflow insert_intent
    validate_candidate check_plan check_nodes check_node index measure visit_all depth_first
    graph_from_candidate node_from_candidate recover recover_nodes recover_node read_attempts
    read_state attempt_state attempt_at tick_scheduler schedule_all schedule_workflow schedule_nodes
    schedule_node on_materialized publish_node publish_found publish_task task_of done_set
    ready_nodes is_ready contains_all materialize materialize_node publish_attempt issue reserve
    hold update_workflow set_reservation within_budget record_attempt outbox_append next_seq
    laya1_task_id decimal numeral node find_node ◌+ℤ◌ ◌-ℤ◌
run_inputs-within_budget_example =
    run_inputs-within_budget millionths same_text true direct_planner every_write config morning "w"
      held_row (omega arith) refl
