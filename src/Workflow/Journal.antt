-- ===== src/Workflow/Journal.antt =====
-- The tables of the engine's journal and the methods of `Journal` on the decisions, the budgets
-- and the reservations: crates/workflow-engine/src/journal.rs. A table is a dictionary by its
-- primary key. The arithmetic on an SQLite integer is that of ℤ, which is SQLite's own while the
-- sums fit in 64 bits: past that SQLite computes with reals, and the read of a real as an `i64`
-- fails. The casts to and from an integer are those of the code.
pub mod Rows
pub mod Attempts
pub mod Outbox
pub mod Totals
pub mod Outcomes
pub mod Ledger
pub mod Keeps
pub mod Calls
pub mod Replays
pub mod Intents
pub mod Drain
use dds_llm_orchestrator.Base.{
  Bool, ℕ, ℤ, pos, ◌+ℤ◌, ◌-ℤ◌, ltb_ℤ, leb_ℤ, as_i64, as_u64, u32, unsigned_abs, String, Option,
  none, some, Result, ok, err, Method, ◌>>=◌, ◌>>◌, pure, List, [], ◌∷◌, if◌then◌else◌, str_eq,
  is_ok,
}
use dds_llm_orchestrator.Base.Dict.{Dict, lookup, contains_key, insert}
use Rows.{
  SqliteError, JournalError, AdmitOutcome, ReserveOutcome, DecisionRow, WorkflowRow, IntentRow,
  ReservationState, ReservationRow, Journal, Admission, Reserve, StoredIntent, sqlite,
  query_returned_no_rows, constraint_violation, insufficient_budget, admitted, replay, conflict,
  reserved, replayed, already_consumed, held, consumed_measured, consumed_full,
}

-- `BEGIN` to `COMMIT`: a statement that fails drops the transaction, which rolls it back.
abbrev pub transaction :
    {A : Type 0} → Method Journal JournalError A → Method Journal JournalError A
transaction m j = let (j', r) = m j in elim r [ ok a ↦ (j', ok a) | err e ↦ (j, err e) ]

-- `CHECK (budget_reserved + budget_consumed <= budget_microunits)`, on every write of a row. A sum past
-- 64 bits is a real that no integer budget reaches, so it fails the test as its exact value does.
unfoldable pub within_budget : WorkflowRow → Bool
within_budget r = leb_ℤ (r.budget_reserved +ℤ r.budget_consumed) r.budget_microunits

abbrev pub decision_row : Admission → DecisionRow
decision_row a = record {
  request_id = a.request_id;
  decision_id = a.decision_id;
  payload_hash = a.payload_hash;
  effective = pos 1;
  verdict = a.verdict;
}

abbrev pub workflow_row : Admission → WorkflowRow
workflow_row a = record {
  request_id = a.request_id;
  budget_microunits = as_i64 a.budget_microunits;
  budget_reserved = pos 0;
  budget_consumed = pos 0;
  max_tokens = as_i64 a.max_tokens;
  status = "accepted";
}

abbrev pub intent_row : Admission → IntentRow
intent_row a = record {
  request_id = a.request_id;
  prompt = a.prompt;
  created_at_ns = as_i64 a.created_at_ns;
  deadline_ns = as_i64 a.deadline_ns;
  max_tokens = as_i64 a.max_tokens;
  max_cost_microunits = as_i64 a.budget_microunits;
  intent_revision = pos a.intent_revision;
  questions_revision = pos a.questions_revision;
  policy_revision = pos a.policy_revision;
  capability_catalog_revision = pos a.capability_catalog_revision;
  checkpoint_revision = a.checkpoint_revision;
}

unfoldable pub insert_decision : Admission → Method Journal JournalError (Unit {0})
unfolding contains_key insert
insert_decision a j =
    if contains_key a.workflow_id j.decisions
    then (j, err (sqlite constraint_violation))
    else (record j { decisions = insert a.workflow_id (decision_row a) j.decisions }, ok tt)

unfoldable pub insert_workflow : Admission → Method Journal JournalError (Unit {0})
unfolding contains_key insert within_budget
insert_workflow a j =
    if contains_key a.workflow_id j.workflows
    then (j, err (sqlite constraint_violation))
    else if within_budget (workflow_row a)
    then (record j { workflows = insert a.workflow_id (workflow_row a) j.workflows }, ok tt)
    else (j, err (sqlite constraint_violation))

-- `INSERT OR IGNORE`.
unfoldable pub insert_intent : Admission → Method Journal JournalError (Unit {0})
unfolding contains_key insert
insert_intent a j =
    if contains_key a.workflow_id j.intents
    then (j, ok tt)
    else (record j { intents = insert a.workflow_id (intent_row a) j.intents }, ok tt)

unfoldable pub admit_rows : Admission → Method Journal JournalError AdmitOutcome
unfolding insert_decision insert_workflow insert_intent
admit_rows a = insert_decision a >> insert_workflow a >> insert_intent a >> pure admitted

unfoldable pub admit_workflow : Admission → Method Journal JournalError AdmitOutcome
unfolding lookup admit_rows
admit_workflow a j = elim (lookup a.workflow_id j.decisions) [
  | some d ↦ (j, ok (if str_eq d.payload_hash a.payload_hash then replay else conflict))
  | none ↦ transaction (admit_rows a) j
]

-- `UPDATE workflows SET … WHERE workflow_id = …`, which writes no row when there is none.
unfoldable pub update_workflow :
    String → (WorkflowRow → WorkflowRow) → Method Journal JournalError (Unit {0})
unfolding lookup insert within_budget
update_workflow workflow_id set j = elim (lookup workflow_id j.workflows) [
  | none ↦ (j, ok tt)
  | some r ↦
      if within_budget (set r)
      then (record j { workflows = insert workflow_id (set r) j.workflows }, ok tt)
      else (j, err (sqlite constraint_violation))
]

abbrev pub add_reserved : ℤ → WorkflowRow → WorkflowRow
add_reserved m r = record r { budget_reserved = r.budget_reserved +ℤ m }

abbrev pub settle_reserved : ℤ → ℤ → WorkflowRow → WorkflowRow
settle_reserved m charged r = record r {
  budget_reserved = r.budget_reserved -ℤ m;
  budget_consumed = r.budget_consumed +ℤ charged;
}

abbrev pub reservation_row : Reserve → ReservationRow
reservation_row q = record {
  workflow_id = q.workflow_id;
  purpose = q.purpose;
  tokens_reserved = as_i64 q.tokens;
  microunits_reserved = as_i64 q.microunits;
  state = held;
}

unfoldable pub set_reservation : String → ReservationRow → Method Journal JournalError (Unit {0})
unfolding insert
set_reservation key r j = (record j { reservations = insert key r j.reservations }, ok tt)

-- The transaction of `reserve`, for a key that stands in no row.
unfoldable pub hold : Reserve → Method Journal JournalError ReserveOutcome
unfolding lookup update_workflow set_reservation
hold q j = elim (lookup q.workflow_id j.workflows) [
  | none ↦ (j, err (sqlite query_returned_no_rows))
  | some r ↦
      let budget = r.budget_microunits -ℤ r.budget_reserved -ℤ r.budget_consumed in
      if ltb_ℤ budget (as_i64 q.microunits)
      then (j, err (insufficient_budget q.purpose q.microunits (unsigned_abs budget)))
      else (update_workflow q.workflow_id (add_reserved (as_i64 q.microunits))
            >> set_reservation q.idempotency_key (reservation_row q)
            >> pure (reserved q.tokens q.microunits))
          j
]

abbrev pub replay_of : ReservationRow → ReserveOutcome
replay_of r = elim r.state [ held ↦ replayed (as_u64 r.tokens_reserved) | _ ↦ already_consumed ]

unfoldable pub reserve : Reserve → Method Journal JournalError ReserveOutcome
unfolding lookup hold
reserve q j = elim (lookup q.idempotency_key j.reservations) [
  | some r ↦ (j, ok (replay_of r))
  | none ↦ transaction (hold q) j
]

abbrev pub charged_of : Option ℕ → ℤ → ℤ
charged_of none m = m
charged_of (some n) m = as_i64 n

abbrev pub settled_state : Option ℕ → ReservationState
settled_state none = consumed_full
settled_state (some n) = consumed_measured

-- The transaction of `release_reservation`, for the row of the key.
unfoldable pub settle : String → ReservationRow → Option ℕ → Method Journal JournalError (Unit {0})
unfolding update_workflow set_reservation
settle key r measured =
    set_reservation key (record r { state = settled_state measured })
    >> update_workflow r.workflow_id
        (settle_reserved r.microunits_reserved (charged_of measured r.microunits_reserved))

unfoldable pub release_reservation : String → Option ℕ → Method Journal JournalError (Unit {0})
unfolding lookup settle
release_reservation key measured j = elim (lookup key j.reservations) [
  | none ↦ (j, err (sqlite query_returned_no_rows))
  | some r ↦ elim r.state [
    | held ↦ transaction (settle key r measured) j
    | _ ↦ (j, err (sqlite query_returned_no_rows))
  ]
]

unfoldable pub budget_status : String → Journal → Result JournalError (ℕ × ℕ × ℕ)
unfolding lookup
budget_status workflow_id j = elim (lookup workflow_id j.workflows) [
  | none ↦ err (sqlite query_returned_no_rows)
  | some r ↦ ok (as_u64 r.budget_microunits, as_u64 r.budget_reserved, as_u64 r.budget_consumed)
]

abbrev pub stored_intent : String → IntentRow → StoredIntent
stored_intent workflow_id r = record {
  workflow_id = workflow_id;
  request_id = r.request_id;
  prompt = r.prompt;
  created_at_ns = as_u64 r.created_at_ns;
  deadline_ns = as_u64 r.deadline_ns;
  max_tokens = as_u64 r.max_tokens;
  max_cost_microunits = as_u64 r.max_cost_microunits;
  intent_revision = u32 (as_u64 r.intent_revision);
  questions_revision = u32 (as_u64 r.questions_revision);
  policy_revision = u32 (as_u64 r.policy_revision);
  capability_catalog_revision = u32 (as_u64 r.capability_catalog_revision);
  checkpoint_revision = r.checkpoint_revision;
}

unfoldable pub stored_from : Dict IntentRow → List StoredIntent
stored_from [] = []
stored_from ((k, r) ∷ m) = stored_intent k r ∷ stored_from m

unfoldable pub stored_intents : Journal → List StoredIntent
unfolding stored_from
stored_intents j = stored_from j.intents
