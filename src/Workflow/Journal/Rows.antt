-- ===== src/Workflow/Journal/Rows.antt =====
-- The rows of the journal's tables, its errors and outcomes.
use dds_llm_orchestrator.Base.{ℕ, ℤ, String, Bool, List}
use dds_llm_orchestrator.Base.Dict.{Dict}

-- The errors of SQLite that the statements can meet.
pub data SqliteError : Type 0 where
  query_returned_no_rows constraint_violation : SqliteError

pub data JournalError : Type 0 where
  sqlite : SqliteError → JournalError
  already_locked corrupted : String → JournalError
  insufficient_budget : String → ℕ → ℕ → JournalError

pub data AdmitOutcome : Type 0 where
  admitted replay conflict : AdmitOutcome

pub data ReserveOutcome : Type 0 where
  reserved : ℕ → ℕ → ReserveOutcome
  replayed : ℕ → ReserveOutcome
  already_consumed : ReserveOutcome

pub record DecisionRow : Type 0 where
  pub request_id : String
  pub decision_id : String
  pub payload_hash : String
  pub effective : ℤ
  pub verdict : String

pub record WorkflowRow : Type 0 where
  pub request_id : String
  pub budget_microunits : ℤ
  pub budget_reserved : ℤ
  pub budget_consumed : ℤ
  pub max_tokens : ℤ
  pub status : String

pub record IntentRow : Type 0 where
  pub request_id : String
  pub prompt : String
  pub created_at_ns : ℤ
  pub deadline_ns : ℤ
  pub max_tokens : ℤ
  pub max_cost_microunits : ℤ
  pub intent_revision : ℤ
  pub questions_revision : ℤ
  pub policy_revision : ℤ
  pub capability_catalog_revision : ℤ
  pub checkpoint_revision : String

-- The three texts that the column's constraint allows.
pub data ReservationState : Type 0 where
  held consumed_measured consumed_full : ReservationState

pub record ReservationRow : Type 0 where
  pub workflow_id : String
  pub purpose : String
  pub tokens_reserved : ℤ
  pub microunits_reserved : ℤ
  pub state : ReservationState

pub record AttemptRow : Type 0 where
  pub workflow_id : String
  pub node_id : String
  pub attempt : ℕ
  pub task_id : String
  pub state : String

pub record OutboxRow : Type 0 where
  pub seq : ℕ
  pub workflow_id : String
  pub kind : String
  pub payload : String
  pub published : Bool

pub record Journal : Type 0 where
  pub intents : Dict IntentRow
  pub decisions : Dict DecisionRow
  pub workflows : Dict WorkflowRow
  pub reservations : Dict ReservationRow
  pub attempts : List AttemptRow
  pub outbox : List OutboxRow

-- The arguments of `admit_workflow`.
pub record Admission : Type 0 where
  pub workflow_id : String
  pub request_id : String
  pub decision_id : String
  pub payload_hash : String
  pub verdict : String
  pub budget_microunits : ℕ
  pub max_tokens : ℕ
  pub prompt : String
  pub created_at_ns : ℕ
  pub deadline_ns : ℕ
  pub intent_revision : ℕ
  pub questions_revision : ℕ
  pub policy_revision : ℕ
  pub capability_catalog_revision : ℕ
  pub checkpoint_revision : String

-- The arguments of `reserve`.
pub record Reserve : Type 0 where
  pub workflow_id : String
  pub idempotency_key : String
  pub purpose : String
  pub tokens : ℕ
  pub microunits : ℕ

-- `StoredIntent`: an admitted intent as the runtime reads it back.
pub record StoredIntent : Type 0 where
  pub workflow_id : String
  pub request_id : String
  pub prompt : String
  pub created_at_ns : ℕ
  pub deadline_ns : ℕ
  pub max_tokens : ℕ
  pub max_cost_microunits : ℕ
  pub intent_revision : ℕ
  pub questions_revision : ℕ
  pub policy_revision : ℕ
  pub capability_catalog_revision : ℕ
  pub checkpoint_revision : String
