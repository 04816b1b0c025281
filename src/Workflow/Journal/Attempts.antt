-- ===== src/Workflow/Journal/Attempts.antt =====
-- The attempts of a node: `record_attempt`, `attempt_state`, `mark_in_doubt` and `in_doubt_attempts`.
use dds_llm_orchestrator.Base.{
  ℕ, String, Bool, true, false, ◌&&◌, ◌||◌, ◌==◌, Option, none, some, Result, ok, err, Method, List,
  [], ◌∷◌, ◌++◌, if◌then◌else◌, str_eq, any, map, select,
}
use dds_llm_orchestrator.Base.Dict.{contains_key, mem}
use dds_llm_orchestrator.Workflow.Journal.Rows.{
  AttemptRow, Journal, JournalError, sqlite, query_returned_no_rows, constraint_violation,
}

-- The row with this primary key.
abbrev pub stands_at : String → String → ℕ → AttemptRow → Bool
stands_at wf node attempt r =
    str_eq r.workflow_id wf && str_eq r.node_id node && (r.attempt == attempt)

unfoldable pub attempt_at : String → String → ℕ → List AttemptRow → Option AttemptRow
attempt_at wf node attempt [] = none
attempt_at wf node attempt (r ∷ rs) =
    if stands_at wf node attempt r then some r else attempt_at wf node attempt rs

-- The texts that the column's constraint allows.
abbrev pub attempt_states : List String
attempt_states =
    "pending" ∷ "published" ∷ "in_flight" ∷ "in_doubt" ∷ "done" ∷ "failed" ∷ "cancelled" ∷ []

-- `DO UPDATE SET state = excluded.state WHERE attempts.task_id = excluded.task_id`.
unfoldable pub set_state : String → String → ℕ → String → String → List AttemptRow → List AttemptRow
set_state wf node attempt task_id state [] = []
set_state wf node attempt task_id state (r ∷ rs) =
    let rest = set_state wf node attempt task_id state rs in
    if stands_at wf node attempt r
    then (if str_eq r.task_id task_id then record r { state = state } ∷ rs else r ∷ rs)
    else r ∷ rest

module _ (foreign_keys : Bool) where
  -- A new row is refused when its workflow is missing (where the build of SQLite enforces foreign
  -- keys) or its task id is taken.
  unfoldable pub record_attempt :
      String → String → ℕ → String → String → Method Journal JournalError (Unit {0})
  unfolding attempt_at set_state contains_key mem
  record_attempt wf node attempt task_id state j =
      if mem state attempt_states
      then (elim (attempt_at wf node attempt j.attempts) [
        | some r ↦
            (record j { attempts = set_state wf node attempt task_id state j.attempts }, ok tt)
        | none ↦
            if (foreign_keys && (if contains_key wf j.workflows then false else true))
              || any (λ r. str_eq r.task_id task_id) j.attempts
            then (j, err (sqlite constraint_violation))
            else (
              record j {
                attempts =
                    j.attempts
                    ++ record {
                      workflow_id = wf;
                      node_id = node;
                      attempt = attempt;
                      task_id = task_id;
                      state = state;
                    }
                      ∷ [];
              },
              ok tt,
            )
      ])
      else (j, err (sqlite constraint_violation))

unfoldable pub attempt_state : String → String → ℕ → Journal → Result JournalError String
unfolding attempt_at
attempt_state wf node attempt j = elim (attempt_at wf node attempt j.attempts) [
  | none ↦ err (sqlite query_returned_no_rows)
  | some r ↦ ok r.state
]

abbrev doubt : String → AttemptRow → AttemptRow
doubt task_id r = if str_eq r.task_id task_id then record r { state = "in_doubt" } else r

unfoldable pub mark_in_doubt : String → Method Journal JournalError (Unit {0})
mark_in_doubt task_id j = (record j { attempts = map (doubt task_id) j.attempts }, ok tt)

unfoldable pub in_doubt_attempts : Journal → List AttemptRow
in_doubt_attempts j = select (λ r. str_eq r.state "in_doubt") j.attempts
