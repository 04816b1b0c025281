-- ===== src/Tests/Plans.antt =====
-- Runs of crates/workflow-engine/src/dag.rs.
use dds_llm_orchestrator.Base.{ℕ, refl, pos, String, List, [], ◌∷◌, All}
use dds_llm_orchestrator.Base.Dict.{Dict, lookup, contains_key, insert, mem}
use dds_llm_orchestrator.Dag.{
  CandidateNode, inference, PlanCandidate, WorkflowIntent, validate_candidate, check_node,
}
use dds_llm_orchestrator.Dag.Plans.{IsRanked, validate_candidate-IsRanked}
use dds_llm_orchestrator.Dag.Answer.{IsVerdict, validate_candidate-IsVerdict}

abbrev node : String → List String → CandidateNode
node id dependencies = record {
  node_id = id;
  kind = inference;
  required_capabilities = "research" ∷ [];
  model_id = "m";
  target_agent_id = "";
  prompt_template = "";
  dependencies = dependencies;
  output_names = "out" ∷ [];
  inputs = [];
  max_attempts = 2;
  max_tokens = 100;
  output_bytes = 1000;
  deadline_ns = 0;
  priority = pos 5;
  side_effect_key = "";
}

abbrev diamond : PlanCandidate
diamond = record {
  planner_id = "p";
  planner_revision = "1";
  planner_tokens = 10;
  nodes =
      node "d" ("b" ∷ "c" ∷ [])
      ∷ record (node "b" ("a" ∷ [])) { inputs = ("a", "out") ∷ [] }
      ∷ node "c" ("a" ∷ [])
      ∷ node "a" []
      ∷ [];
}

abbrev intent : WorkflowIntent
intent = record { max_tokens = 1000; deadline_ns = 0 }

validate_candidate-IsRanked_example : (rank : Dict ℕ) × All (IsRanked rank) diamond.nodes
unfolding validate_candidate check_node lookup contains_key insert mem
validate_candidate-IsRanked_example = validate_candidate-IsRanked diamond intent 5 refl

abbrev loop : PlanCandidate
loop = record diamond { nodes = node "a" ("b" ∷ []) ∷ node "b" ("a" ∷ []) ∷ [] }

validate_candidate-IsVerdict_example : IsVerdict (validate_candidate loop intent 5)
validate_candidate-IsVerdict_example = validate_candidate-IsVerdict loop intent 5
