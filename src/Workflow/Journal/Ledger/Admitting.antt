-- ===== src/Workflow/Journal/Ledger/Admitting.antt =====
-- `admit_workflow` of crates/workflow-engine/src/journal.rs beside `admit_account` of the ledger.
use dds_llm_orchestrator.Base.{
  ℤ, pos, leb_ℤ, as_i64, String, ◌≡◌, refl, sym, ap, ◌∙◌, none, some, Option-cases, Bool-cases, inl,
  inr, ok, if◌then◌else◌, str_eq, eq_iff, arith,
}
use dds_llm_orchestrator.Base.Dict.{lookup, insert, map_option, map_values-insert, lookup-insert}
use dds_llm_orchestrator.Workflow.Journal.{
  admit_workflow, within_budget, decision_row, workflow_row,
}
use dds_llm_orchestrator.Workflow.Journal.Outcomes.{
  admit-known, admit-ok, admit-refused, admitted_journal,
}
use dds_llm_orchestrator.Workflow.Journal.Rows.{
  Journal, replay, conflict, WorkflowRow, DecisionRow, Admission,
}
use dds_llm_orchestrator.Workflow.Journal.Ledger.{Account, Ledger, admit_account}
use dds_llm_orchestrator.Workflow.Journal.Ledger.Relation.{
  counter, Implements, Simulates, Simulates-at, add_zero, same_lookup, no_account_row,
}
use dds_llm_orchestrator.Workflow.Journal.Ledger.Branches.{
  account_of, admit_account-known, admit_account-ok, admit_account-refused,
}

first_row_fits :
    (a : Admission) → within_budget (workflow_row a) ≡ leb_ℤ (pos 0) (as_i64 a.budget_microunits)
unfolding within_budget
first_row_fits a = ap (λ z. leb_ℤ z (as_i64 a.budget_microunits)) (add_zero (pos 0))

module _ (j : Journal) (l : Ledger) (i : Implements j l) where
  new_counter :
      (f : WorkflowRow → ℤ) (w v : String) (r : WorkflowRow)
      → lookup w j.workflows ≡ none
      → f r ≡ pos 0
      → counter f v (insert w r j.workflows) ≡ counter f v j.workflows
  new_counter f w v r e z = ground (arith, lookup-insert w v r j.workflows, e, z, eq_iff w v)

  after_admit :
      (a : Admission)
      → lookup a.workflow_id l.accounts ≡ none
      → Implements
          (admitted_journal a j)
          (record l { accounts = insert a.workflow_id (account_of a) l.accounts })
  after_admit a e =
      let none_there = no_account_row j l i a.workflow_id e in
      record {
        hashes =
            map_values-insert Account.payload_hash a.workflow_id (account_of a) l.accounts
            ∙ ap (insert a.workflow_id a.payload_hash) i.hashes
            ∙ sym (
                map_values-insert DecisionRow.payload_hash a.workflow_id (decision_row a)
                  j.decisions);
        budgets =
            map_values-insert Account.budget a.workflow_id (account_of a) l.accounts
            ∙ ap (insert a.workflow_id (as_i64 a.budget_microunits)) i.budgets
            ∙ sym (
                map_values-insert WorkflowRow.budget_microunits a.workflow_id (workflow_row a)
                  j.workflows);
        owners = λ k h yes. ground (
          arith,
          yes,
          lookup-insert a.workflow_id h.owner (account_of a) l.accounts,
          i.owners k h,
        );
        rows = i.rows;
        kept_sum = λ w.
            i.kept_sum w
            ∙ sym (
                new_counter WorkflowRow.budget_reserved a.workflow_id w (workflow_row a) none_there
                  refl);
        cost_sum = λ w.
            i.cost_sum w
            ∙ sym (
                new_counter WorkflowRow.budget_consumed a.workflow_id w (workflow_row a) none_there
                  refl);
      }

  decision_at :
      (w : String)
      → map_option Account.payload_hash (lookup w l.accounts)
        ≡ map_option DecisionRow.payload_hash (lookup w j.decisions)
  decision_at w = same_lookup _ _ w l.accounts j.decisions i.hashes

  no_decision : (w : String) → lookup w l.accounts ≡ none → lookup w j.decisions ≡ none
  no_decision w e = ground (arith, decision_at w)

  known_decision :
      (w : String) (acc : Account)
      → lookup w l.accounts ≡ some acc
      → (d : DecisionRow) × (lookup w j.decisions ≡ some d) × (d.payload_hash ≡ acc.payload_hash)
  known_decision w acc e = elim (Option-cases (lookup w j.decisions)) [
    | inl empty ↦ ground (arith, decision_at w)
    | inr (d, found) ↦ (d, found, ground (arith, decision_at w))
  ]

  pub admit-Simulates : (a : Admission) → Simulates (admit_workflow a j) (admit_account a l)
  admit-Simulates a = elim (Option-cases (lookup a.workflow_id l.accounts)) [
    | inr (acc, found) ↦
        let (d, at, same) = known_decision a.workflow_id acc found in
        Simulates-at (admit-known j a d at) (admit_account-known a l acc found)
          (i, ap (λ h. ok (if str_eq h a.payload_hash then replay else conflict)) same)
    | inl empty ↦
        let fresh = no_decision a.workflow_id empty in
        let unused = no_account_row j l i a.workflow_id empty in
        elim (Bool-cases (leb_ℤ (pos 0) (as_i64 a.budget_microunits))) [
          | inl fine ↦
              Simulates-at (admit-ok j a fresh unused (first_row_fits a ∙ fine))
                (admit_account-ok a l empty fine) (after_admit a empty, refl)
          | inr over ↦
              Simulates-at (admit-refused j a fresh unused (first_row_fits a ∙ over))
                (admit_account-refused a l empty over) (i, refl)
        ]
  ]
