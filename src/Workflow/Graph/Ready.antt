-- ===== src/Workflow/Graph/Ready.antt =====
-- Which nodes are ready: `ready_nodes` of crates/workflow-engine/src/engine.rs, asked with the nodes
-- that are done.
use dds_llm_orchestrator.Base.{Bool, true, false, ◌⊎◌, All, ◌≡◌, none, some, Option, List, [], ◌∷◌}
use dds_llm_orchestrator.Base.Dict.{Dict, lookup}
use dds_llm_orchestrator.Workflow.Graph.{NodeSpec}
use dds_llm_orchestrator.Workflow.Engine.{NodeProgress}

-- Is the node done?
pub finished : Option NodeProgress → Bool
finished none = false
finished (some p) = p.done

-- The node stands in the list.
abbrev pub In : NodeSpec → List NodeSpec → Type 0
In n [] = ⊥
In n (x ∷ xs) = (n ≡ x) ⊎ In n xs

-- A node that is not done, each of whose dependencies is.
abbrev pub IsReady : Dict NodeProgress → NodeSpec → Type 0
IsReady m n =
    (finished (lookup n.node_id m) ≡ false) × All (λ d. finished (lookup d m) ≡ true) n.dependencies
