-- ===== src/Workflow/Journal/Ledger.antt =====
-- An abstract ledger beside the budgets of crates/workflow-engine/src/journal.rs, with no counter
-- and no transaction: an account for every admitted workflow, and a hold for every idempotency
-- key with what it was charged. The funds that are left are summed over the holds at every call.
pub mod Relation
pub mod Branches
pub mod Reserving
pub mod Settling
pub mod Admitting
pub mod Refinement
pub mod Budget
pub mod Amounts
use dds_llm_orchestrator.Base.{
  ℕ, ℤ, pos, ◌+ℤ◌, ◌-ℤ◌, ltb_ℤ, leb_ℤ, as_i64, as_u64, unsigned_abs, String, Bool, true, Option,
  none, some, Result, ok, err, Method, if◌then◌else◌, str_eq,
}
use dds_llm_orchestrator.Base.Dict.{Dict, lookup, insert}
use dds_llm_orchestrator.Workflow.Journal.Rows.{
  JournalError, AdmitOutcome, ReserveOutcome, Admission, Reserve, sqlite, query_returned_no_rows,
  constraint_violation, insufficient_budget, admitted, replay, conflict, reserved, replayed,
  already_consumed,
}
use dds_llm_orchestrator.Workflow.Journal.Totals.{total}

pub data Charge : Type 0 where
  pending full : Charge
  measured : ℕ → Charge

pub record Hold : Type 0 where
  pub owner : String
  pub purpose : String
  pub tokens : ℤ
  pub amount : ℤ
  pub charge : Charge

pub record Account : Type 0 where
  pub payload_hash : String
  pub budget : ℤ

pub record Ledger : Type 0 where
  pub accounts : Dict Account
  pub holds : Dict Hold

-- What a hold keeps back of its owner's budget, and what it has cost its owner.
abbrev pub kept : Charge → ℤ → ℤ
kept pending m = m
kept full m = pos 0
kept (measured n) m = pos 0

abbrev pub cost : Charge → ℤ → ℤ
cost pending m = pos 0
cost full m = m
cost (measured n) m = as_i64 n

abbrev pub kept_by : String → Hold → ℤ
kept_by owner h = if str_eq h.owner owner then kept h.charge h.amount else pos 0

abbrev pub cost_to : String → Hold → ℤ
cost_to owner h = if str_eq h.owner owner then cost h.charge h.amount else pos 0

abbrev pub admit_account : Admission → Method Ledger JournalError AdmitOutcome
admit_account a l = elim (lookup a.workflow_id l.accounts) [
  | some acc ↦ (l, ok (if str_eq acc.payload_hash a.payload_hash then replay else conflict))
  | none ↦
      if leb_ℤ (pos 0) (as_i64 a.budget_microunits)
      then (
        record l {
          accounts =
              insert a.workflow_id
                (record { payload_hash = a.payload_hash; budget = as_i64 a.budget_microunits })
                l.accounts;
        },
        ok admitted,
      )
      else (l, err (sqlite constraint_violation))
]

abbrev pub funds : String → ℤ → Dict Hold → ℤ
funds owner budget holds = budget -ℤ total (kept_by owner) holds -ℤ total (cost_to owner) holds

abbrev pub new_hold : Reserve → Hold
new_hold q = record {
  owner = q.workflow_id;
  purpose = q.purpose;
  tokens = as_i64 q.tokens;
  amount = as_i64 q.microunits;
  charge = pending;
}

abbrev pub outcome_of : Hold → ReserveOutcome
outcome_of h = elim h.charge [ pending ↦ replayed (as_u64 h.tokens) | _ ↦ already_consumed ]

abbrev pub reserve_hold : Reserve → Method Ledger JournalError ReserveOutcome
reserve_hold q l = elim (lookup q.idempotency_key l.holds) [
  | some h ↦ (l, ok (outcome_of h))
  | none ↦ elim (lookup q.workflow_id l.accounts) [
    | none ↦ (l, err (sqlite query_returned_no_rows))
    | some acc ↦
        let left = funds q.workflow_id acc.budget l.holds in
        if ltb_ℤ left (as_i64 q.microunits)
        then (l, err (insufficient_budget q.purpose q.microunits (unsigned_abs left)))
        else (
          record l { holds = insert q.idempotency_key (new_hold q) l.holds },
          ok (reserved q.tokens q.microunits),
        )
  ]
]

-- Do the holds of an owner fit in its budget?
abbrev pub covers : String → Ledger → Bool
covers owner l = elim (lookup owner l.accounts) [
  | none ↦ true
  | some acc ↦ leb_ℤ (total (kept_by owner) l.holds +ℤ total (cost_to owner) l.holds) acc.budget
]

abbrev pub charge_for : Option ℕ → Charge
charge_for none = full
charge_for (some n) = measured n

abbrev pub settle_hold : String → Option ℕ → Method Ledger JournalError (Unit {0})
settle_hold key m l = elim (lookup key l.holds) [
  | none ↦ (l, err (sqlite query_returned_no_rows))
  | some h ↦ elim h.charge [
    | pending ↦
        let l' : Ledger = record l {
          holds = insert key (record h { charge = charge_for m }) l.holds;
        } in
        if covers h.owner l' then (l', ok tt) else (l, err (sqlite constraint_violation))
    | _ ↦ (l, err (sqlite query_returned_no_rows))
  ]
]
