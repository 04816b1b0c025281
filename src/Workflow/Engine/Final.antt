-- ===== src/Workflow/Engine/Final.antt =====
-- Nodes that are done, in crates/workflow-engine/src/engine.rs.
use dds_llm_orchestrator.Base.{
  ℕ, String, Bool, true, false, ◌≡◌, none, some, List, err, eq_iff, arith,
}
use dds_llm_orchestrator.Base.Dict.{Dict, lookup, insert, lookup-insert, insert-same}
use dds_llm_orchestrator.Workflow.Graph.{NodeSpec, PlanGraph, node}
use dds_llm_orchestrator.Workflow.Engine.{
  NodeProgress, no_progress, World, materialize, materialize_node, returned, already_done,
}
use dds_llm_orchestrator.Workflow.Engine.Events.{Event, Move, run_events, AnyAmount, any_amount}
use dds_llm_orchestrator.Workflow.Engine.Moves.{run_events-Holds}

Move-fresh : (spec : NodeSpec) (p p' : NodeProgress) → Move spec p p' → p.done ≡ false
Move-fresh spec p _ (Move.starts _ d) = d
Move-fresh spec p _ (Move.doubts _ d) = d
Move-fresh spec p _ (Move.concludes _ outputs d c) = d
Move-fresh spec p _ (Move.retries _ d lt) = d
Move-fresh spec p _ (Move.gives_up _ d) = d

module _ (g : PlanGraph) (done_id : String) (p : NodeProgress) where
  abbrev Stands : Dict NodeProgress → Type 0
  Stands nodes = lookup done_id nodes ≡ some p

  opened-Stands :
      (id : String) (spec : NodeSpec) (nodes : Dict NodeProgress)
      → node id g ≡ some spec
      → lookup id nodes ≡ none
      → Stands nodes
      → Stands (insert id no_progress nodes)
  opened-Stands id spec nodes n e at =
      ground (arith, e, at, lookup-insert id done_id no_progress nodes, eq_iff id done_id)

  moved-Stands :
      p.done ≡ true
      → (id : String) (spec : NodeSpec) (q q' : NodeProgress) (nodes : Dict NodeProgress)
      → node id g ≡ some spec
      → lookup id nodes ≡ some q
      → Move spec q q'
      → Stands nodes
      → Stands (insert id q' nodes)
  moved-Stands d id spec q q' nodes n e m at = ground (
    arith,
    d,
    e,
    at,
    Move-fresh spec q q' m,
    lookup-insert id done_id q' nodes,
    eq_iff id done_id,
  )

materialize-done :
    (digest : String → String) (foreign_keys : Bool) (g : PlanGraph) (id : String) (microunits : ℕ)
    (spec : NodeSpec) (p : NodeProgress) (w : World)
    → node id g ≡ some spec
    → lookup id w.nodes ≡ some p
    → p.done ≡ true
    → materialize digest foreign_keys g id microunits w ≡ (w, err (returned (already_done id)))
unfolding materialize materialize_node
materialize-done digest foreign_keys g id microunits spec p w n at d =
    ground (arith, n, at, d, insert-same id p w.nodes at)

-- Once a node is done its progress and its outputs stand through every sequence of events, and an
-- attempt to publish it again changes nothing, in the engine or in the journal.
pub run_events-final :
    (digest : String → String) (foreign_keys : Bool) (g : PlanGraph) (es : List Event) (id : String)
    (microunits : ℕ) (spec : NodeSpec) (p : NodeProgress) (w : World)
    → node id g ≡ some spec
    → lookup id w.nodes ≡ some p
    → p.done ≡ true
    → (lookup id (run_events digest foreign_keys g es w).nodes ≡ some p)
      × (materialize digest foreign_keys g id microunits (run_events digest foreign_keys g es w)
          ≡ (run_events digest foreign_keys g es w, err (returned (already_done id))))
run_events-final digest foreign_keys g es id microunits spec p w n at d =
    let kept =
      run_events-Holds digest foreign_keys g AnyAmount (λ w. Stands g id p w.nodes)
        (λ id' spec' w. opened-Stands g id p id' spec' w.nodes)
        (λ id' spec' q q' w. moved-Stands g id p d id' spec' q q' w.nodes) (λ w j m q. q) es w
        (any_amount es) at in
    (kept, materialize-done digest foreign_keys g id microunits spec p _ n kept d)
