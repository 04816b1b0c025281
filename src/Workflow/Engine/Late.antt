-- ===== src/Workflow/Engine/Late.antt =====
-- Results of earlier attempts in crates/workflow-engine/src/engine.rs.
use dds_llm_orchestrator.Base.{
  ℕ, ◌≤◌, ◌<◌, ◌==◌, String, Bool, false, ◌≡◌, refl, none, some, List, Result, is_ok, eq_iff, arith,
  Bool-cases, Option-cases, inl, inr, str_eq,
}
use dds_llm_orchestrator.Base.Dict.{Dict, lookup, insert, lookup-insert}
use dds_llm_orchestrator.Workflow.Graph.{NodeSpec, PlanGraph, node}
use dds_llm_orchestrator.Workflow.Engine.{
  NodeProgress, no_progress, World, Step, guarded, on_done, on_failed, Failure,
}
use dds_llm_orchestrator.Workflow.Engine.Events.{Event, Move, run_events, AnyAmount, any_amount}
use dds_llm_orchestrator.Workflow.Engine.Moves.{run_events-Holds}

Move-le :
    (spec : NodeSpec) (p p' : NodeProgress) → Move spec p p' → p.active_attempt ≤ p'.active_attempt
Move-le spec p _ (Move.starts _ d) = omega arith
Move-le spec p _ (Move.doubts _ d) = omega arith
Move-le spec p _ (Move.concludes _ outputs d c) = omega arith
Move-le spec p _ (Move.retries _ d lt) = omega arith
Move-le spec p _ (Move.gives_up _ d) = omega arith

module _ (g : PlanGraph) (late_id : String) (n : ℕ) where
  -- The node is past attempt `n`.
  abbrev Past : Dict NodeProgress → Type 0
  Past nodes = (p : NodeProgress) × (lookup late_id nodes ≡ some p) × (n < p.active_attempt)

  opened-Past :
      (id : String) (spec : NodeSpec) (nodes : Dict NodeProgress)
      → node id g ≡ some spec
      → lookup id nodes ≡ none
      → Past nodes
      → Past (insert id no_progress nodes)
  opened-Past id spec nodes e empty (p, at, lt) = (
    p,
    ground (arith, empty, at, lookup-insert id late_id no_progress nodes, eq_iff id late_id),
    lt,
  )

  moved-Past :
      (id : String) (spec : NodeSpec) (q q' : NodeProgress) (nodes : Dict NodeProgress)
      → node id g ≡ some spec
      → lookup id nodes ≡ some q
      → Move spec q q'
      → Past nodes
      → Past (insert id q' nodes)
  moved-Past id spec q q' nodes e found m (p, at, lt) = elim (Bool-cases (str_eq id late_id)) [
    | inl same ↦ (
      q',
      ground (arith, same, lookup-insert id late_id q' nodes),
      ground (arith, same, eq_iff id late_id, found, at, lt, Move-le spec q q' m),
    )
    | inr apart ↦ (p, ground (arith, apart, at, lookup-insert id late_id q' nodes), lt)
  ]

-- A reply that is an error, from a method that changed nothing.
unfoldable pub Refuses : {A : Type 0} → World × Result Failure A → World → Type 0
Refuses x w = (x.0 ≡ w) × (is_ok x.1 ≡ false)

guarded-late :
    {A : Type 0} (id : String) (attempt : ℕ) (p : NodeProgress) (rest : Step A) (w : World)
    → attempt < p.active_attempt
    → Refuses (guarded id attempt p rest w) w
unfolding Refuses
guarded-late id attempt p rest w lt =
    let other : (attempt == p.active_attempt) ≡ false = ground (arith, lt) in
    elim (Bool-cases p.done) [
      | inl over ↦ rw (guarded, over) (refl, refl)
      | inr fresh ↦ rw (guarded, fresh, other) (refl, refl)
    ]

on_done-late :
    (digest : String → String) (foreign_keys : Bool) (g : PlanGraph) (id : String) (attempt : ℕ)
    (outputs : List (String × String)) (p : NodeProgress) (w : World)
    → lookup id w.nodes ≡ some p
    → attempt < p.active_attempt
    → Refuses (on_done digest foreign_keys g id attempt outputs w) w
unfolding on_done Refuses
on_done-late digest foreign_keys g id attempt outputs p w at lt = elim (Option-cases (node id g)) [
  | inl empty ↦ rw (on_done, empty) (refl, refl)
  | inr (spec, n) ↦ rw (on_done, n, at) (guarded-late id attempt p _ w lt)
]

on_failed-late :
    (digest : String → String) (foreign_keys : Bool) (g : PlanGraph) (id : String) (attempt : ℕ)
    (failover : Bool) (p : NodeProgress) (w : World)
    → lookup id w.nodes ≡ some p
    → attempt < p.active_attempt
    → Refuses (on_failed digest foreign_keys g id attempt failover w) w
unfolding on_failed Refuses
on_failed-late digest foreign_keys g id attempt failover p w at lt =
    elim (Option-cases (node id g)) [
      | inl empty ↦ rw (on_failed, empty) (refl, refl)
      | inr (spec, n) ↦ rw (on_failed, n, at) (guarded-late id attempt p _ w lt)
    ]

-- Once a node has moved on to a later attempt, a result of the old one, a success or a failure, is
-- refused after any sequence of events and changes nothing, in the engine or in the journal.
pub run_events-late :
    (digest : String → String) (foreign_keys : Bool) (g : PlanGraph) (es : List Event) (id : String)
    (attempt : ℕ) (outputs : List (String × String)) (failover : Bool) (p : NodeProgress)
    (w : World)
    → lookup id w.nodes ≡ some p
    → attempt < p.active_attempt
    → Refuses
        (on_done digest foreign_keys g id attempt outputs (run_events digest foreign_keys g es w))
        (run_events digest foreign_keys g es w)
      × Refuses
          (on_failed digest foreign_keys g id attempt failover
            (run_events digest foreign_keys g es w))
          (run_events digest foreign_keys g es w)
run_events-late digest foreign_keys g es id attempt outputs failover p w at lt =
    let (q, found, past) =
      run_events-Holds digest foreign_keys g AnyAmount (λ w. Past g id attempt w.nodes)
        (λ id' spec' w. opened-Past g id attempt id' spec' w.nodes)
        (λ id' spec' q q' w. moved-Past g id attempt id' spec' q q' w.nodes) (λ w j m q. q) es w
        (any_amount es) (p, at, lt) in
    (
      on_done-late digest foreign_keys g id attempt outputs q _ found past,
      on_failed-late digest foreign_keys g id attempt failover q _ found past,
    )
