-- ===== src/Workflow/Journal/Ledger/Branches.antt =====
-- The branches of the ledger's calls.
use dds_llm_orchestrator.Base.{
  ℕ, ℤ, pos, ltb_ℤ, leb_ℤ, as_i64, String, ◌≡◌, ◌≢◌, refl, true, false, Option, none, some, ok, err,
  if◌then◌else◌, str_eq, arith, unsigned_abs,
}
use dds_llm_orchestrator.Base.Dict.{lookup, insert}
use dds_llm_orchestrator.Workflow.Journal.Rows.{
  admitted, replay, conflict, reserved, sqlite, query_returned_no_rows, insufficient_budget,
  constraint_violation, Admission, Reserve,
}
use dds_llm_orchestrator.Workflow.Journal.Ledger.{
  pending, Hold, Account, Ledger, admit_account, reserve_hold, settle_hold, new_hold, funds, covers,
  charge_for,
}

-- A hold that is settled, and what the ledger is then.
abbrev pub spent_hold : Hold → Option ℕ → Hold
spent_hold h m = record h { charge = charge_for m }

abbrev pub spent : String → Hold → Option ℕ → Ledger → Ledger
spent key h m l = record l { holds = insert key (spent_hold h m) l.holds }

-- The branches of the ledger's `settle_hold`.
module _ (key : String) (m : Option ℕ) (l : Ledger) where
  pub settle_hold-unknown :
      lookup key l.holds ≡ none → settle_hold key m l ≡ (l, err (sqlite query_returned_no_rows))
  settle_hold-unknown e = rw (settle_hold, e) refl

  pub settle_hold-spent :
      (h : Hold)
      → lookup key l.holds ≡ some h
      → h.charge ≢ pending
      → settle_hold key m l ≡ (l, err (sqlite query_returned_no_rows))
  settle_hold-spent h e c = ground (arith, e, c)

  pub settle_hold-over :
      (h : Hold)
      → lookup key l.holds ≡ some h
      → h.charge ≡ pending
      → covers h.owner (spent key h m l) ≡ false
      → settle_hold key m l ≡ (l, err (sqlite constraint_violation))
  settle_hold-over h e c over = rw (settle_hold, e, c, over) refl

  pub settle_hold-ok :
      (h : Hold)
      → lookup key l.holds ≡ some h
      → h.charge ≡ pending
      → covers h.owner (spent key h m l) ≡ true
      → settle_hold key m l ≡ (spent key h m l, ok tt)
  settle_hold-ok h e c fit = rw (settle_hold, e, c, fit) refl

-- The branches of the ledger's `admit_account`.
abbrev pub account_of : Admission → Account
account_of a = record { payload_hash = a.payload_hash; budget = as_i64 a.budget_microunits }

module _ (a : Admission) (l : Ledger) where
  pub admit_account-known :
      (acc : Account)
      → lookup a.workflow_id l.accounts ≡ some acc
      → admit_account a l
        ≡ (l, ok (if str_eq acc.payload_hash a.payload_hash then replay else conflict))
  admit_account-known acc e = rw (admit_account, e) refl

  pub admit_account-ok :
      lookup a.workflow_id l.accounts ≡ none
      → leb_ℤ (pos 0) (as_i64 a.budget_microunits) ≡ true
      → admit_account a l
        ≡ (record l { accounts = insert a.workflow_id (account_of a) l.accounts }, ok admitted)
  admit_account-ok e fit = rw (admit_account, e, fit) refl

  pub admit_account-refused :
      lookup a.workflow_id l.accounts ≡ none
      → leb_ℤ (pos 0) (as_i64 a.budget_microunits) ≡ false
      → admit_account a l ≡ (l, err (sqlite constraint_violation))
  admit_account-refused e fit = rw (admit_account, e, fit) refl

-- The branches of the ledger's `reserve_hold`.
module _ (q : Reserve) (l : Ledger) where
  pub reserve_hold-unknown :
      lookup q.idempotency_key l.holds ≡ none
      → lookup q.workflow_id l.accounts ≡ none
      → reserve_hold q l ≡ (l, err (sqlite query_returned_no_rows))
  reserve_hold-unknown free e = rw (reserve_hold, free, e) refl

  pub reserve_hold-short :
      (acc : Account) (left : ℤ)
      → lookup q.idempotency_key l.holds ≡ none
      → lookup q.workflow_id l.accounts ≡ some acc
      → funds q.workflow_id acc.budget l.holds ≡ left
      → ltb_ℤ left (as_i64 q.microunits) ≡ true
      → reserve_hold q l ≡ (l, err (insufficient_budget q.purpose q.microunits (unsigned_abs left)))
  reserve_hold-short acc left free e same h = rw (reserve_hold, free, e, same, h) refl

  pub reserve_hold-ok :
      (acc : Account) (left : ℤ)
      → lookup q.idempotency_key l.holds ≡ none
      → lookup q.workflow_id l.accounts ≡ some acc
      → funds q.workflow_id acc.budget l.holds ≡ left
      → ltb_ℤ left (as_i64 q.microunits) ≡ false
      → reserve_hold q l ≡ (
        record l { holds = insert q.idempotency_key (new_hold q) l.holds },
        ok (reserved q.tokens q.microunits),
      )
  reserve_hold-ok acc left free e same h = rw (reserve_hold, free, e, same, h) refl
