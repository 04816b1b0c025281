-- ===== src/Workflow/Journal/Ledger/Reserving.antt =====
-- `reserve` of crates/workflow-engine/src/journal.rs beside `reserve_hold` of the ledger.
use dds_llm_orchestrator.Base.{
  ℤ, pos, ◌+ℤ◌, ltb_ℤ, as_i64, Bool, ◌≡◌, refl, sym, ap, ◌∙◌, true, false, none, some, Option-cases,
  Bool-cases, inl, inr, ok, if◌then◌else◌, str_eq, arith,
}
use dds_llm_orchestrator.Base.Dict.{lookup, insert, map_values-insert, lookup-insert}
use dds_llm_orchestrator.Workflow.Journal.{reserve, add_reserved, reservation_row}
use dds_llm_orchestrator.Workflow.Journal.Outcomes.{
  left_of, reserved_journal, reserve-ok, reserve-short, reserve-unknown, reserve-known,
}
use dds_llm_orchestrator.Workflow.Journal.Rows.{Journal, WorkflowRow, Reserve}
use dds_llm_orchestrator.Workflow.Journal.Totals.{total, total-insert_new}
use dds_llm_orchestrator.Workflow.Journal.Ledger.{
  Hold, Account, Ledger, kept, kept_by, cost_to, reserve_hold, new_hold, funds,
}
use dds_llm_orchestrator.Workflow.Journal.Ledger.Relation.{
  row_of, counter, Implements, Simulates, Simulates-at, add_zero, same_outcome, counter-insert,
  counter-known, budgets-insert, known_row, no_row, account_row, no_account_row,
}
use dds_llm_orchestrator.Workflow.Journal.Ledger.Branches.{
  spent, reserve_hold-unknown, reserve_hold-short, reserve_hold-ok,
}

sum_if :
    (b : Bool) (t m x y : ℤ)
    → (b ≡ true → t +ℤ m ≡ y)
    → t ≡ x
    → t +ℤ (if b then m else pos 0) ≡ (if b then y else x)
sum_if true t m x y h e = h refl
sum_if false t m x y h e = add_zero t ∙ e

module _ (j : Journal) (l : Ledger) (i : Implements j l) where
  after_reserve :
      (q : Reserve) (r : WorkflowRow) (acc : Account)
      → lookup q.idempotency_key l.holds ≡ none
      → lookup q.workflow_id l.accounts ≡ some acc
      → lookup q.workflow_id j.workflows ≡ some r
      → Implements
          (reserved_journal q r j)
          (record l { holds = insert q.idempotency_key (new_hold q) l.holds })
  after_reserve q r acc free found e =
      let r' : WorkflowRow = add_reserved (as_i64 q.microunits) r in
      record {
        hashes = i.hashes;
        budgets = i.budgets ∙ budgets-insert q.workflow_id r r' j.workflows e refl;
        owners = λ k h yes. ground (
          arith,
          found,
          yes,
          lookup-insert q.idempotency_key k (new_hold q) l.holds,
          i.owners k h,
        );
        rows =
            map_values-insert row_of q.idempotency_key (new_hold q) l.holds
            ∙ ap (insert q.idempotency_key (reservation_row q)) i.rows;
        kept_sum = λ w.
            total-insert_new (kept_by w) q.idempotency_key (new_hold q) l.holds free
            ∙ sum_if (str_eq q.workflow_id w) (total (kept_by w) l.holds) (as_i64 q.microunits)
                (counter WorkflowRow.budget_reserved w j.workflows) r'.budget_reserved
                (λ h.
                  ap (λ x. x +ℤ as_i64 q.microunits)
                    (i.kept_sum w
                      ∙ counter-known WorkflowRow.budget_reserved q.workflow_id w r j.workflows e
                          h))
                (i.kept_sum w)
            ∙ sym (counter-insert WorkflowRow.budget_reserved q.workflow_id w r' j.workflows);
        cost_sum = λ w.
            total-insert_new (cost_to w) q.idempotency_key (new_hold q) l.holds free
            ∙ sum_if (str_eq q.workflow_id w) (total (cost_to w) l.holds) (pos 0)
                (counter WorkflowRow.budget_consumed w j.workflows) r'.budget_consumed
                (λ h.
                  add_zero _
                  ∙ i.cost_sum w
                  ∙ counter-known WorkflowRow.budget_consumed q.workflow_id w r j.workflows e h)
                (i.cost_sum w)
            ∙ sym (counter-insert WorkflowRow.budget_consumed q.workflow_id w r' j.workflows);
      }

  pub reserve_new :
      (q : Reserve)
      → lookup q.idempotency_key l.holds ≡ none
      → Simulates (reserve q j) (reserve_hold q l)
  reserve_new q free = elim (Option-cases (lookup q.workflow_id l.accounts)) [
    | inl empty ↦
        Simulates-at
          (reserve-unknown j q (no_row j l i q.idempotency_key free)
            (no_account_row j l i q.workflow_id empty))
          (reserve_hold-unknown q l free empty) (i, refl)
    | inr (acc, found) ↦
        let (r, at, same, kept, spent) = account_row j l i q.workflow_id acc found in
        let equal : funds q.workflow_id acc.budget l.holds ≡ left_of r =
          rw (same, kept, spent) refl in
        elim (Bool-cases (ltb_ℤ (left_of r) (as_i64 q.microunits))) [
          | inl short ↦
              Simulates-at (reserve-short j q r (no_row j l i q.idempotency_key free) at short)
                (reserve_hold-short q l acc (left_of r) free found equal short) (i, refl)
          | inr enough ↦
              Simulates-at (reserve-ok j q r (no_row j l i q.idempotency_key free) at enough)
                (reserve_hold-ok q l acc (left_of r) free found equal enough)
                (after_reserve q r acc free found at, refl)
        ]
  ]

  pub reserve_known :
      (q : Reserve) (h : Hold)
      → lookup q.idempotency_key l.holds ≡ some h
      → Simulates (reserve q j) (reserve_hold q l)
  reserve_known q h e =
      Simulates-at (reserve-known j q (row_of h) (known_row j l i q.idempotency_key h e))
        (rw (reserve_hold, e) refl) (i, ap ok (same_outcome h))

  pub reserve-Simulates : (q : Reserve) → Simulates (reserve q j) (reserve_hold q l)
  reserve-Simulates q = elim (Option-cases (lookup q.idempotency_key l.holds)) [
    | inl empty ↦ reserve_new q empty
    | inr (h, e) ↦ reserve_known q h e
  ]
