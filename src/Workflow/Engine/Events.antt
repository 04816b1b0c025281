-- ===== src/Workflow/Engine/Events.antt =====
-- Sequences of the engine's calls, in any order and with any results, and the steps that the calls are made of.
use dds_llm_orchestrator.Base.{
  ℕ, ◌+◌, ◌<◌, max, String, Bool, true, false, none, All, List, [], ◌∷◌, ◌≡◌,
}
use dds_llm_orchestrator.Workflow.Graph.{NodeSpec, PlanGraph}
use dds_llm_orchestrator.Workflow.Journal.{reserve, release_reservation}
use dds_llm_orchestrator.Workflow.Journal.Rows.{Journal, Reserve}
use dds_llm_orchestrator.Workflow.Journal.Attempts.{record_attempt}
use dds_llm_orchestrator.Workflow.Journal.Outbox.{outbox_append}
use dds_llm_orchestrator.Workflow.Engine.{
  NodeProgress, World, materialize, on_done, on_failed, has_outputs,
}

pub data Event : Type 0 where
  publish : String → ℕ → Event
  finish : String → ℕ → List (String × String) → Event
  lose : String → ℕ → Bool → Event

module _ (digest : String → String) (foreign_keys : Bool) (g : PlanGraph) where
  unfoldable pub event : Event → World → World
  unfolding materialize on_done on_failed
  event (publish id microunits) w = (materialize digest foreign_keys g id microunits w).0
  event (finish id attempt outputs) w = (on_done digest foreign_keys g id attempt outputs w).0
  event (lose id attempt failover) w = (on_failed digest foreign_keys g id attempt failover w).0

  unfoldable pub run_events : List Event → World → World
  unfolding event
  run_events [] w = w
  run_events (e ∷ es) w = run_events es (event e w)

-- How the progress of a node may change.
pub data Move (spec : NodeSpec) : NodeProgress → NodeProgress → Type 0 where
  starts :
      (p : NodeProgress)
      → p.done ≡ false
      → Move spec p (record p { active_attempt = max p.active_attempt 1 })
  doubts : (p : NodeProgress) → p.done ≡ false → Move spec p (record p { in_doubt = true })
  concludes :
      (p : NodeProgress) (outputs : List (String × String))
      → p.done ≡ false
      → has_outputs outputs spec.output_names ≡ true
      → Move spec p (record p { done = true; outputs = outputs })
  retries :
      (p : NodeProgress)
      → p.done ≡ false
      → p.active_attempt < spec.max_attempts
      → Move spec p (record p { active_attempt = p.active_attempt + 1 })
  gives_up : (p : NodeProgress) → p.done ≡ false → Move spec p (record p { failed = true })

-- The amounts that the events publish for.
abbrev pub Pays : (ℕ → Type 0) → Event → Type 0
Pays Paid (publish id microunits) = Paid microunits
Pays Paid _ = Unit

abbrev pub AnyAmount : ℕ → Type 0
AnyAmount _ = Unit

pub any_amount : (es : List Event) → All (Pays AnyAmount) es
any_amount [] = tt
any_amount (publish id m ∷ es) = (tt, any_amount es)
any_amount (finish id n outputs ∷ es) = (tt, any_amount es)
any_amount (lose id n failover ∷ es) = (tt, any_amount es)

-- The calls of the journal that the engine makes, where it pays such amounts.
pub data Write (foreign_keys : Bool) (Paid : ℕ → Type 0) (j : Journal) : Journal → Type 0 where
  reserves : (q : Reserve) → Paid q.microunits → Write foreign_keys Paid j (reserve q j).0
  releases : (key : String) → Write foreign_keys Paid j (release_reservation key none j).0
  records :
      (wf id : String) (attempt : ℕ) (task_id state : String)
      → Write foreign_keys Paid j (record_attempt foreign_keys wf id attempt task_id state j).0
  appends :
      (wf kind payload : String) → Write foreign_keys Paid j (outbox_append wf kind payload j).0
