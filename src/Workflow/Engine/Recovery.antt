-- ===== src/Workflow/Engine/Recovery.antt =====
-- `EngineState::recover`: the progress of every node from the rows of its attempts.
use dds_llm_orchestrator.Base.{
  ℕ, zero, suc, ◌+◌, String, true, ◌||◌, ok, err, List, [], ◌∷◌, if◌then◌else◌, str_eq,
}
use dds_llm_orchestrator.Base.Dict.{Dict, insert}
use dds_llm_orchestrator.Workflow.Graph.{NodeSpec, PlanGraph}
use dds_llm_orchestrator.Workflow.Journal.Rows.{Journal}
use dds_llm_orchestrator.Workflow.Journal.Attempts.{attempt_state}
use dds_llm_orchestrator.Workflow.Engine.{NodeProgress, no_progress}

-- The match on the state of one attempt; `rest` is the loop from the next attempt on.
unfoldable pub read_state : ℕ → String → NodeProgress → (NodeProgress → NodeProgress) → NodeProgress
read_state attempt state p rest =
    if str_eq state "done"
    then record p { done = true; active_attempt = attempt }
    else if str_eq state "failed" || str_eq state "cancelled"
    then record p { failed = true; active_attempt = attempt }
    else if str_eq state "in_doubt"
    then rest (record p { active_attempt = attempt; in_doubt = true })
    else rest (record p { active_attempt = attempt })

-- `for attempt in from..from + fuel`
unfoldable pub read_attempts : Journal → String → String → ℕ → ℕ → NodeProgress → NodeProgress
unfolding attempt_state read_state
read_attempts j wf id zero from p = p
read_attempts j wf id (suc fuel) from p = elim (attempt_state wf id from j) [
  | ok state ↦ read_state from state p (read_attempts j wf id fuel (from + 1))
  | err e ↦ read_attempts j wf id fuel (from + 1) p
]

unfoldable pub recover_node : Journal → String → NodeSpec → NodeProgress
unfolding read_attempts
recover_node j wf n =
    read_attempts j wf n.node_id n.max_attempts 1 (record no_progress { active_attempt = 1 })

unfoldable pub recover_nodes :
    Journal → String → List NodeSpec → Dict NodeProgress → Dict NodeProgress
unfolding recover_node insert
recover_nodes j wf [] nodes = nodes
recover_nodes j wf (n ∷ ns) nodes =
    recover_nodes j wf ns (insert n.node_id (recover_node j wf n) nodes)

unfoldable pub recover : Journal → PlanGraph → Dict NodeProgress
unfolding recover_nodes
recover j g = recover_nodes j g.workflow_id g.nodes []
