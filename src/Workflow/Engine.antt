-- ===== src/Workflow/Engine.antt =====
-- The scheduler's state and its methods: `EngineState` of crates/workflow-engine/src/engine.rs. The
-- engine and its journal change together, so a method runs on both.
pub mod Recovery
pub mod Events
pub mod Moves
pub mod Spending
pub mod Attempts
pub mod Final
pub mod Late
pub mod Restart
use Prim.Native.String.{◌++◌}
use dds_llm_orchestrator.Base.{
  ℕ, ◌+◌, max, String, Bool, true, false, ◌&&◌, Option, none, some, Result, ok, err, Method, ◌>>=◌,
  ◌>>◌, pure, modify, List, [], ◌∷◌, map, if◌then◌else◌, ltb, ◌==◌, str_eq, decimal,
}
use dds_llm_orchestrator.Base.Dict.{Dict, lookup, insert, keys, retain}
use dds_llm_orchestrator.Workflow.Graph.{NodeSpec, PlanGraph, node, ready_nodes, laya1_task_id}
use dds_llm_orchestrator.Workflow.Journal.{reserve, release_reservation}
use dds_llm_orchestrator.Workflow.Journal.Rows.{
  Journal, JournalError, Reserve, ReserveOutcome, already_consumed,
}
use dds_llm_orchestrator.Workflow.Journal.Attempts.{record_attempt, attempt_state}
use dds_llm_orchestrator.Workflow.Journal.Outbox.{outbox_append}

pub record NodeProgress : Type 0 where
  pub active_attempt : ℕ
  pub done : Bool
  pub failed : Bool
  pub in_doubt : Bool
  pub outputs : List (String × String)

-- `NodeProgress::default()`
abbrev pub no_progress : NodeProgress
no_progress = record {
  active_attempt = 0;
  done = false;
  failed = false;
  in_doubt = false;
  outputs = [];
}

pub data EngineError : Type 0 where
  journal : JournalError → EngineError
  unknown_node invalid_output already_done : String → EngineError
  stale_attempt : String → ℕ → ℕ → EngineError
  reservation_consumed : String → ℕ → EngineError

-- A method returns an error, or stops at `expect("materialized")`.
pub data Failure : Type 0 where
  returned : EngineError → Failure
  panicked : Failure

pub record World : Type 0 where
  pub nodes : Dict NodeProgress
  pub store : Journal

abbrev pub Step : Type 0 → Type 0
Step A = Method World Failure A

abbrev pub fail : {A : Type 0} → EngineError → Step A
fail e w = (w, err (returned e))

-- `journal.method(…)?`
abbrev pub reply_of :
    {A : Type 0} → World → Journal × Result JournalError A → World × Result Failure A
reply_of w (j, ok a) = (record w { store = j }, ok a)
reply_of w (j, err e) = (record w { store = j }, err (returned (journal e)))

abbrev pub on_journal : {A : Type 0} → Method Journal JournalError A → Step A
on_journal m w = reply_of w (m w.store)

-- `let _ = journal.method(…);`
abbrev pub ignore_journal : {A : Type 0} → Method Journal JournalError A → Step (Unit {0})
ignore_journal m w = (record w { store = (m w.store).0 }, ok tt)

abbrev pub set_progress : String → NodeProgress → World → World
set_progress id p w = record w { nodes = insert id p w.nodes }

unfoldable pub done_set : Dict NodeProgress → List String
unfolding retain
done_set nodes = keys (retain (λ id p. p.done) nodes)

abbrev pub attempt_key : String → String → ℕ → String
attempt_key workflow_id node_id attempt =
    "attempt:" ++ workflow_id ++ ":" ++ node_id ++ ":" ++ decimal attempt

-- The reservation that an attempt makes.
abbrev pub attempt_reserve : PlanGraph → NodeSpec → String → ℕ → ℕ → Reserve
attempt_reserve g spec node_id attempt microunits =
    let key = attempt_key g.workflow_id node_id attempt in
    record {
      workflow_id = g.workflow_id;
      idempotency_key = key;
      purpose = key;
      tokens = spec.max_tokens;
      microunits = microunits;
    }

abbrev pub task_payload : String → String → ℕ → String
task_payload task_id node_id attempt =
    "{\"task_id\":\""
    ++ task_id
    ++ "\",\"node\":\""
    ++ node_id
    ++ "\",\"attempt\":"
    ++ decimal attempt
    ++ "}"

-- Every declared output stands among the results with a hash that is not empty.
unfoldable pub has_output : List (String × String) → String → Bool
has_output [] name = false
has_output ((n, h) ∷ rest) name =
    if str_eq n name then (if str_eq h "" then false else true) else has_output rest name

unfoldable pub has_outputs : List (String × String) → List String → Bool
unfolding has_output
has_outputs outputs [] = true
has_outputs outputs (name ∷ names) = has_output outputs name && has_outputs outputs names

abbrev pub task_id_of : (String → String) → PlanGraph → String → ℕ → String
task_id_of digest g id attempt = laya1_task_id digest g.workflow_id g.plan_revision id attempt

-- `entry(…).or_default()`
abbrev pub entry : String → World → NodeProgress
entry id w = elim (lookup id w.nodes) [ none ↦ no_progress | some p ↦ p ]

-- The guards that `on_done` and `on_failed` share.
abbrev pub guarded : {A : Type 0} → String → ℕ → NodeProgress → Step A → Step A
guarded id attempt p rest =
    if p.done
    then fail (already_done id)
    else if attempt == p.active_attempt
    then rest
    else fail (stale_attempt id attempt p.active_attempt)

-- The reservation of an attempt is charged in full, whatever the journal says of it.
abbrev pub release_attempt : PlanGraph → String → ℕ → Step (Unit {0})
release_attempt g id attempt =
    ignore_journal (release_reservation (attempt_key g.workflow_id id attempt) none)

abbrev pub note : PlanGraph → String → String → Step (Unit {0})
note g kind payload = on_journal (outbox_append g.workflow_id kind payload)

abbrev pub done_payload : String → String
done_payload id = "{\"node\":\"" ++ id ++ "\",\"status\":\"done\"}"

abbrev pub retry_payload : String → ℕ → String
retry_payload id next = "{\"node\":\"" ++ id ++ "\",\"retry\":" ++ decimal next ++ "}"

-- The nodes that are ready now.
unfoldable pub answer_ready : PlanGraph → Step (List String)
unfolding done_set ready_nodes
answer_ready g w = (w, ok (map NodeSpec.node_id (ready_nodes (done_set w.nodes) g)))

-- `on_failed` once the attempt is closed.
unfoldable pub retry_or_give_up :
    PlanGraph → NodeSpec → String → ℕ → Bool → NodeProgress → Step (Option ℕ)
unfolding insert outbox_append decimal
retry_or_give_up g spec id attempt failover_enabled p =
    if failover_enabled && ltb attempt spec.max_attempts
    then (let next = attempt + 1 in
        modify (set_progress id (record p { active_attempt = next }))
        >> (note g "publish_state" (retry_payload id next) >> pure (some next)))
    else modify (set_progress id (record p { failed = true })) >> pure none

-- SHA-256, and whether the build of SQLite enforces foreign keys.
module _ (digest : String → String) (foreign_keys : Bool) where
  abbrev pub write_attempt : PlanGraph → String → ℕ → String → Step (Unit {0})
  write_attempt g id attempt state =
      on_journal (
        record_attempt foreign_keys g.workflow_id id attempt (task_id_of digest g id attempt) state)

  -- `materialize` once the attempt is reserved.
  unfoldable pub issue : PlanGraph → String → ℕ → Step String
  unfolding record_attempt outbox_append laya1_task_id decimal
  issue g id attempt =
      let task_id = task_id_of digest g id attempt in
      write_attempt g id attempt "published"
      >> note g "publish_task" (task_payload task_id id attempt)
      >> pure task_id

  -- The match on the outcome of the reservation.
  unfoldable pub publish_attempt :
      PlanGraph → String → ℕ → NodeProgress → ReserveOutcome → Step String
  unfolding insert issue
  publish_attempt g id attempt p already_consumed =
      modify (set_progress id (record p { in_doubt = true }))
      >> fail (reservation_consumed id attempt)
  publish_attempt g id attempt p _ = issue g id attempt

  -- `materialize` on the node's spec and progress.
  unfoldable pub materialize_node : PlanGraph → NodeSpec → String → ℕ → NodeProgress → Step String
  unfolding insert publish_attempt reserve decimal
  materialize_node g spec id microunits p =
      if p.done
      then fail (already_done id)
      else if p.in_doubt
      then fail (reservation_consumed id p.active_attempt)
      else (let attempt = max p.active_attempt 1 in
          let p' : NodeProgress = record p { active_attempt = attempt } in
          modify (set_progress id p')
          >> (on_journal (reserve (attempt_reserve g spec id attempt microunits))
              >>= publish_attempt g id attempt p'))

  unfoldable pub materialize : PlanGraph → String → ℕ → Step String
  unfolding node lookup insert materialize_node
  materialize g id microunits w = elim (node id g) [
    | none ↦ fail (unknown_node id) w
    | some spec ↦
        materialize_node g spec id microunits (entry id w) (set_progress id (entry id w) w)
  ]

  -- `on_done` once the result is accepted: the node is done before the journal is written.
  unfoldable pub conclude : PlanGraph → String → ℕ → NodeProgress → Step (List String)
  unfolding insert record_attempt outbox_append release_reservation laya1_task_id decimal
      answer_ready
  conclude g id attempt p =
      modify (set_progress id p)
      >> (write_attempt g id attempt "done"
          >> note g "publish_state" (done_payload id)
          >> release_attempt g id attempt
          >> answer_ready g)

  unfoldable pub on_done : PlanGraph → String → ℕ → List (String × String) → Step (List String)
  unfolding node lookup has_outputs conclude
  on_done g id attempt outputs w = elim (node id g) [
    | none ↦ fail (unknown_node id) w
    | some spec ↦ elim (lookup id w.nodes) [
      | none ↦ (w, err panicked)
      | some p ↦
          guarded id attempt p
            (if has_outputs outputs spec.output_names
              then conclude g id attempt (record p { done = true; outputs = outputs })
              else fail (invalid_output id))
            w
    ]
  ]

  -- `on_failed` once the failure is accepted.
  unfoldable pub close_attempt :
      PlanGraph → NodeSpec → String → ℕ → Bool → NodeProgress → Step (Option ℕ)
  unfolding record_attempt release_reservation laya1_task_id decimal retry_or_give_up
  close_attempt g spec id attempt failover_enabled p =
      release_attempt g id attempt
      >> write_attempt g id attempt "failed"
      >> retry_or_give_up g spec id attempt failover_enabled p

  unfoldable pub on_failed : PlanGraph → String → ℕ → Bool → Step (Option ℕ)
  unfolding node lookup close_attempt
  on_failed g id attempt failover_enabled w = elim (node id g) [
    | none ↦ fail (unknown_node id) w
    | some spec ↦ elim (lookup id w.nodes) [
      | none ↦ (w, err panicked)
      | some p ↦ guarded id attempt p (close_attempt g spec id attempt failover_enabled p) w
    ]
  ]
