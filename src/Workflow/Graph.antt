-- ===== src/Workflow/Graph.antt =====
-- The plan that the engine runs: `NodeSpec` and `PlanGraph` of crates/workflow-engine/src/engine.rs,
-- and the task ids of crates/workflow-engine/src/task_id.rs.
pub mod Ready
use Prim.Native.String.{◌++◌}
use dds_llm_orchestrator.Base.{
  ℕ, ℤ, max, String, Bool, true, false, not, ◌&&◌, Option, none, some, List, [], ◌∷◌, map, select,
  if◌then◌else◌, str_eq, decimal,
}
use dds_llm_orchestrator.Base.Dict.{mem}
use dds_llm_orchestrator.Dag.{CandidateNode, PlanCandidate}

pub record NodeSpec : Type 0 where
  pub node_id : String
  pub dependencies : List String
  pub output_names : List String
  pub max_attempts : ℕ
  pub max_tokens : ℕ
  pub priority : ℤ
  pub model_id : String
  pub target_agent_id : String

-- `NodeSpec::from_candidate`
unfoldable pub node_from_candidate : CandidateNode → NodeSpec
node_from_candidate c = record {
  node_id = c.node_id;
  dependencies = c.dependencies;
  output_names = c.output_names;
  max_attempts = max c.max_attempts 1;
  max_tokens = c.max_tokens;
  priority = c.priority;
  model_id = c.model_id;
  target_agent_id = c.target_agent_id;
}

pub record PlanGraph : Type 0 where
  pub workflow_id : String
  pub plan_revision : ℕ
  pub nodes : List NodeSpec

-- `PlanGraph::from_candidate`
unfoldable pub graph_from_candidate : String → ℕ → PlanCandidate → PlanGraph
unfolding node_from_candidate
graph_from_candidate workflow_id plan_revision c = record {
  workflow_id = workflow_id;
  plan_revision = plan_revision;
  nodes = map node_from_candidate c.nodes;
}

unfoldable pub find_node : String → List NodeSpec → Option NodeSpec
find_node id [] = none
find_node id (n ∷ ns) = if str_eq n.node_id id then some n else find_node id ns

unfoldable pub node : String → PlanGraph → Option NodeSpec
unfolding find_node
node id g = find_node id g.nodes

unfoldable pub contains_all : List String → List String → Bool
unfolding mem
contains_all done [] = true
contains_all done (d ∷ ds) = mem d done && contains_all done ds

unfoldable pub is_ready : List String → NodeSpec → Bool
unfolding mem contains_all
is_ready done n = not (mem n.node_id done) && contains_all done n.dependencies

-- The set of the nodes that are done is a list here; only membership is read.
unfoldable pub ready_nodes : List String → PlanGraph → List NodeSpec
unfolding is_ready
ready_nodes done g = select (is_ready done) g.nodes

-- `digest` is the hexadecimal SHA-256 of a text.
unfoldable pub laya1_task_id : (String → String) → String → ℕ → String → ℕ → String
unfolding decimal
laya1_task_id digest workflow_id plan_revision node_id attempt =
    "laya1-"
    ++ digest
        (workflow_id ++ "|" ++ decimal plan_revision ++ "|" ++ node_id ++ "|" ++ decimal attempt)
