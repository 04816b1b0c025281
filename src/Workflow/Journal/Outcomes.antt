-- ===== src/Workflow/Journal/Outcomes.antt =====
-- What a method of the journal returns, and the state it leaves, on each of its branches.
use dds_llm_orchestrator.Base.{
  ℕ, ℤ, ◌+ℤ◌, ◌-ℤ◌, ltb_ℤ, leb_ℤ, as_i64, String, ◌≡◌, ◌≢◌, refl, ap, ◌∙◌, true, false, Option,
  none, some, Result, ok, err, str_eq, if◌then◌else◌, arith, int_laws, le→leb, ltb-false→le,
  unsigned_abs, then-ok, then-err, ◌>>◌, pure,
}
use dds_llm_orchestrator.Base.Dict.{Dict, lookup, contains_key, insert}
use dds_llm_orchestrator.Workflow.Journal.{
  admit_workflow, admit_rows, insert_decision, insert_workflow, insert_intent, decision_row,
  workflow_row, intent_row, within_budget, reserve, hold, update_workflow, set_reservation,
  release_reservation, settle, replay_of, add_reserved, settle_reserved, reservation_row,
  charged_of, settled_state,
}
use dds_llm_orchestrator.Workflow.Journal.Rows.{
  Admission, IntentRow, admitted, replay, conflict, Journal, JournalError, ReservationRow, held,
  WorkflowRow, DecisionRow, Reserve, reserved, insufficient_budget, sqlite, constraint_violation,
  query_returned_no_rows,
}

-- A row whose funds cover the amount passes its constraint after the hold.
fits : (b r c m : ℤ) → ltb_ℤ (b -ℤ r -ℤ c) m ≡ false → leb_ℤ (r +ℤ m +ℤ c) b ≡ true
fits b r c m h = le→leb _ _ (omega (int_laws, ltb-false→le _ _ h))

abbrev pub reserved_journal : Reserve → WorkflowRow → Journal → Journal
reserved_journal q r j = record j {
  workflows = insert q.workflow_id (add_reserved (as_i64 q.microunits) r) j.workflows;
  reservations = insert q.idempotency_key (reservation_row q) j.reservations;
}

abbrev pub left_of : WorkflowRow → ℤ
left_of r = r.budget_microunits -ℤ r.budget_reserved -ℤ r.budget_consumed

-- The row of a reservation, and that of its workflow, once it is settled.
abbrev pub spent_row : ReservationRow → Option ℕ → ReservationRow
spent_row v measured = record v { state = settled_state measured }

abbrev pub settled_row : ReservationRow → Option ℕ → WorkflowRow → WorkflowRow
settled_row v measured =
    settle_reserved v.microunits_reserved (charged_of measured v.microunits_reserved)

abbrev pub settled_journal : String → ReservationRow → Option ℕ → WorkflowRow → Journal → Journal
settled_journal key v measured r j = record j {
  workflows = insert v.workflow_id (settled_row v measured r) j.workflows;
  reservations = insert key (spent_row v measured) j.reservations;
}

-- The journal after an admission: the row of an intent that stands is kept.
abbrev pub admitted_journal : Admission → Journal → Journal
admitted_journal a j = record j {
  intents =
      if contains_key a.workflow_id j.intents
      then j.intents
      else insert a.workflow_id (intent_row a) j.intents;
  decisions = insert a.workflow_id (decision_row a) j.decisions;
  workflows = insert a.workflow_id (workflow_row a) j.workflows;
}

-- What a transaction does with the outcome of its statements.
abbrev committed :
    {A : Type 0} → Journal → Journal × Result JournalError A → Journal × Result JournalError A
committed j x = elim x.1 [ ok a ↦ (x.0, ok a) | err e ↦ (j, err e) ]

module _ (j : Journal) where
  pub update_workflow-ok :
      (w : String) (set : WorkflowRow → WorkflowRow) (r : WorkflowRow)
      → lookup w j.workflows ≡ some r
      → within_budget (set r) ≡ true
      → update_workflow w set j ≡ (record j { workflows = insert w (set r) j.workflows }, ok tt)
  unfolding update_workflow
  update_workflow-ok w set r e h = rw (update_workflow, e, h) refl

  pub update_workflow-refused :
      (w : String) (set : WorkflowRow → WorkflowRow) (r : WorkflowRow)
      → lookup w j.workflows ≡ some r
      → within_budget (set r) ≡ false
      → update_workflow w set j ≡ (j, err (sqlite constraint_violation))
  unfolding update_workflow
  update_workflow-refused w set r e h = rw (update_workflow, e, h) refl

  pub reserve-ok :
      (q : Reserve) (r : WorkflowRow)
      → lookup q.idempotency_key j.reservations ≡ none
      → lookup q.workflow_id j.workflows ≡ some r
      → ltb_ℤ (left_of r) (as_i64 q.microunits) ≡ false
      → reserve q j ≡ (reserved_journal q r j, ok (reserved q.tokens q.microunits))
  unfolding reserve hold update_workflow set_reservation within_budget
  reserve-ok q r free e h = ground (
    arith,
    free,
    e,
    h,
    fits r.budget_microunits r.budget_reserved r.budget_consumed (as_i64 q.microunits) h,
  )

  pub reserve-short :
      (q : Reserve) (r : WorkflowRow)
      → lookup q.idempotency_key j.reservations ≡ none
      → lookup q.workflow_id j.workflows ≡ some r
      → ltb_ℤ (left_of r) (as_i64 q.microunits) ≡ true
      → reserve q j
        ≡ (j, err (insufficient_budget q.purpose q.microunits (unsigned_abs (left_of r))))
  unfolding reserve hold
  reserve-short q r free e h = ground (arith, free, e, h)

  pub reserve-unknown :
      (q : Reserve)
      → lookup q.idempotency_key j.reservations ≡ none
      → lookup q.workflow_id j.workflows ≡ none
      → reserve q j ≡ (j, err (sqlite query_returned_no_rows))
  unfolding reserve hold
  reserve-unknown q free e = ground (arith, free, e)

  pub reserve-known :
      (q : Reserve) (r : ReservationRow)
      → lookup q.idempotency_key j.reservations ≡ some r
      → reserve q j ≡ (j, ok (replay_of r))
  unfolding reserve
  reserve-known q r e = rw (reserve, e) refl

  pub release-unknown :
      (key : String) (measured : Option ℕ)
      → lookup key j.reservations ≡ none
      → release_reservation key measured j ≡ (j, err (sqlite query_returned_no_rows))
  unfolding release_reservation
  release-unknown key measured e = rw (release_reservation, e) refl

  pub release-spent :
      (key : String) (measured : Option ℕ) (v : ReservationRow)
      → lookup key j.reservations ≡ some v
      → v.state ≢ held
      → release_reservation key measured j ≡ (j, err (sqlite query_returned_no_rows))
  unfolding release_reservation
  release-spent key measured v e h = ground (arith, e, h)

  pub release-ok :
      (key : String) (measured : Option ℕ) (v : ReservationRow) (r : WorkflowRow)
      → lookup key j.reservations ≡ some v
      → v.state ≡ held
      → lookup v.workflow_id j.workflows ≡ some r
      → within_budget (settled_row v measured r) ≡ true
      → release_reservation key measured j ≡ (settled_journal key v measured r j, ok tt)
  unfolding release_reservation settle update_workflow set_reservation
  release-ok key measured v r e h at fit = ground (arith, e, h, at, fit)

  pub release-over :
      (key : String) (measured : Option ℕ) (v : ReservationRow) (r : WorkflowRow)
      → lookup key j.reservations ≡ some v
      → v.state ≡ held
      → lookup v.workflow_id j.workflows ≡ some r
      → within_budget (settled_row v measured r) ≡ false
      → release_reservation key measured j ≡ (j, err (sqlite constraint_violation))
  unfolding release_reservation settle update_workflow set_reservation
  release-over key measured v r e h at fit = ground (arith, e, h, at, fit)

  pub release-orphan :
      (key : String) (measured : Option ℕ) (v : ReservationRow)
      → lookup key j.reservations ≡ some v
      → v.state ≡ held
      → lookup v.workflow_id j.workflows ≡ none
      → release_reservation key measured j
        ≡ (record j { reservations = insert key (spent_row v measured) j.reservations }, ok tt)
  unfolding release_reservation settle update_workflow set_reservation
  release-orphan key measured v e h at = ground (arith, e, h, at)

  pub admit-known :
      (a : Admission) (d : DecisionRow)
      → lookup a.workflow_id j.decisions ≡ some d
      → admit_workflow a j
        ≡ (j, ok (if str_eq d.payload_hash a.payload_hash then replay else conflict))
  unfolding admit_workflow
  admit-known a d e = rw (admit_workflow, e) refl

  insert_decision-ok :
      (a : Admission)
      → lookup a.workflow_id j.decisions ≡ none
      → insert_decision a j
        ≡ (record j { decisions = insert a.workflow_id (decision_row a) j.decisions }, ok tt)
  unfolding insert_decision contains_key
  insert_decision-ok a e = rw (insert_decision, contains_key, e) refl

  insert_workflow-ok :
      (a : Admission)
      → lookup a.workflow_id j.workflows ≡ none
      → within_budget (workflow_row a) ≡ true
      → insert_workflow a j
        ≡ (record j { workflows = insert a.workflow_id (workflow_row a) j.workflows }, ok tt)
  unfolding insert_workflow contains_key
  insert_workflow-ok a e fit = rw (insert_workflow, contains_key, e, fit) refl

  insert_workflow-refused :
      (a : Admission)
      → lookup a.workflow_id j.workflows ≡ none
      → within_budget (workflow_row a) ≡ false
      → insert_workflow a j ≡ (j, err (sqlite constraint_violation))
  unfolding insert_workflow contains_key
  insert_workflow-refused a e fit = rw (insert_workflow, contains_key, e, fit) refl

  abbrev intents_after : Admission → Dict IntentRow
  intents_after a =
      if contains_key a.workflow_id j.intents
      then j.intents
      else insert a.workflow_id (intent_row a) j.intents

  insert_intent-ok :
      (a : Admission) → insert_intent a j ≡ (record j { intents = intents_after a }, ok tt)
  unfolding insert_intent
  insert_intent-ok a = ground arith

module _ (j : Journal) (a : Admission) where
  abbrev with_decision : Journal
  with_decision = record j { decisions = insert a.workflow_id (decision_row a) j.decisions }

  abbrev with_workflow : Journal
  with_workflow = record with_decision {
    workflows = insert a.workflow_id (workflow_row a) j.workflows;
  }

  admit_rows-ok :
      lookup a.workflow_id j.decisions ≡ none
      → lookup a.workflow_id j.workflows ≡ none
      → within_budget (workflow_row a) ≡ true
      → admit_rows a j ≡ (admitted_journal a j, ok admitted)
  unfolding admit_rows
  admit_rows-ok e e' fit =
      then-ok (insert_decision a >> insert_workflow a >> insert_intent a) (pure admitted) j
        (admitted_journal a j) tt
        (then-ok (insert_decision a >> insert_workflow a) (insert_intent a) j with_workflow tt (
            then-ok (insert_decision a) (insert_workflow a) j with_decision tt
              (insert_decision-ok j a e)
            ∙ insert_workflow-ok with_decision a e' fit)
          ∙ insert_intent-ok with_workflow a)

  admit_rows-refused :
      lookup a.workflow_id j.decisions ≡ none
      → lookup a.workflow_id j.workflows ≡ none
      → within_budget (workflow_row a) ≡ false
      → admit_rows a j ≡ (with_decision, err (sqlite constraint_violation))
  unfolding admit_rows
  admit_rows-refused e e' fit =
      then-err (insert_decision a >> insert_workflow a >> insert_intent a) (pure admitted) j
        with_decision (sqlite constraint_violation)
        (then-err (insert_decision a >> insert_workflow a) (insert_intent a) j with_decision
          (sqlite constraint_violation)
          (then-ok (insert_decision a) (insert_workflow a) j with_decision tt
              (insert_decision-ok j a e)
            ∙ insert_workflow-refused with_decision a e' fit))

  pub admit-ok :
      lookup a.workflow_id j.decisions ≡ none
      → lookup a.workflow_id j.workflows ≡ none
      → within_budget (workflow_row a) ≡ true
      → admit_workflow a j ≡ (admitted_journal a j, ok admitted)
  unfolding admit_workflow
  admit-ok e e' fit = rw (admit_workflow, e) (ap (committed j) (admit_rows-ok e e' fit))

  pub admit-refused :
      lookup a.workflow_id j.decisions ≡ none
      → lookup a.workflow_id j.workflows ≡ none
      → within_budget (workflow_row a) ≡ false
      → admit_workflow a j ≡ (j, err (sqlite constraint_violation))
  unfolding admit_workflow
  admit-refused e e' fit = rw (admit_workflow, e) (ap (committed j) (admit_rows-refused e e' fit))
