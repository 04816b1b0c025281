-- ===== src/Workflow/Journal/Ledger/Settling.antt =====
-- `release_reservation` of crates/workflow-engine/src/journal.rs beside `settle_hold` of the
-- ledger.
use dds_llm_orchestrator.Base.{
  ℕ, ℤ, pos, ◌+ℤ◌, ◌-ℤ◌, String, Bool, ◌≡◌, refl, sym, ap, ◌∙◌, true, false, Option, none, some,
  Option-cases, Bool-cases, inl, inr, if◌then◌else◌, str_eq, eq_refl, arith, int_laws,
}
use dds_llm_orchestrator.Base.Dict.{lookup, insert, map_values, map_values-insert, lookup-insert}
use dds_llm_orchestrator.Workflow.Journal.{
  within_budget, release_reservation, settled_state, charged_of,
}
use dds_llm_orchestrator.Workflow.Journal.Outcomes.{
  spent_row, settled_row, settled_journal, release-unknown, release-spent, release-ok, release-over,
}
use dds_llm_orchestrator.Workflow.Journal.Rows.{Journal, WorkflowRow}
use dds_llm_orchestrator.Workflow.Journal.Totals.{total, total-insert_over}
use dds_llm_orchestrator.Workflow.Journal.Ledger.{
  pending, Hold, Account, Ledger, kept, cost, kept_by, cost_to, settle_hold, covers, charge_for,
}
use dds_llm_orchestrator.Workflow.Journal.Ledger.Relation.{
  state_of, row_of, Implements, Simulates, Simulates-at, Charge-cases, add_zero, counter-insert,
  counter-known, budgets-insert, known_row, no_row, account_row,
}
use dds_llm_orchestrator.Workflow.Journal.Ledger.Branches.{
  spent_hold, spent, settle_hold-unknown, settle_hold-spent, settle_hold-over, settle_hold-ok,
}

moved :
    (b : Bool) (t t' old new x y : ℤ)
    → t' +ℤ (if b then old else pos 0) ≡ t +ℤ (if b then new else pos 0)
    → t ≡ x
    → (b ≡ true → t' +ℤ old ≡ t +ℤ new → t' ≡ y)
    → t' ≡ (if b then y else x)
moved true t t' old new x y e same h = h refl e
moved false t t' old new x y e same h = sym (add_zero t') ∙ e ∙ add_zero t ∙ same

less : (t' old t x : ℤ) → t' +ℤ old ≡ t +ℤ pos 0 → t ≡ x → t' ≡ x -ℤ old
less t' old t x e same = grind int_laws

kept_for : (m : Option ℕ) (a : ℤ) → kept (charge_for m) a ≡ pos 0
kept_for none a = refl
kept_for (some n) a = refl

cost_for : (m : Option ℕ) (a : ℤ) → cost (charge_for m) a ≡ charged_of m a
cost_for none a = refl
cost_for (some n) a = refl

charged_state : (m : Option ℕ) → state_of (charge_for m) ≡ settled_state m
charged_state none = refl
charged_state (some n) = refl

module _ (j : Journal) (l : Ledger) (i : Implements j l) where
  rows_after :
      (key : String) (h : Hold) (m : Option ℕ)
      → map_values row_of (insert key (spent_hold h m) l.holds)
        ≡ insert key (spent_row (row_of h) m) j.reservations
  rows_after key h m =
      map_values-insert row_of key (spent_hold h m) l.holds
      ∙ ap (λ s. insert key (record (row_of h) { state = s }) (map_values row_of l.holds))
          (charged_state m)
      ∙ ap (insert key (spent_row (row_of h) m)) i.rows

  after_settle :
      (key : String) (h : Hold) (m : Option ℕ) (r : WorkflowRow)
      → lookup key l.holds ≡ some h
      → h.charge ≡ pending
      → lookup h.owner j.workflows ≡ some r
      → Implements (settled_journal key (row_of h) m r j) (spent key h m l)
  after_settle key h m r e p at =
      let r' : WorkflowRow = settled_row (row_of h) m r in
      record {
        hashes = i.hashes;
        budgets = i.budgets ∙ budgets-insert h.owner r r' j.workflows at refl;
        owners = λ k x yes. ground (
          arith,
          e,
          yes,
          lookup-insert key k (spent_hold h m) l.holds,
          i.owners k x,
          i.owners key h,
        );
        rows = rows_after key h m;
        kept_sum = λ w.
            moved (str_eq h.owner w) _ _ h.amount (pos 0) _ r'.budget_reserved
              (ap
                  (λ c.
                    total (kept_by w) (insert key (spent_hold h m) l.holds)
                    +ℤ (if str_eq h.owner w then kept c h.amount else pos 0))
                  (sym p)
                ∙ total-insert_over (kept_by w) key (spent_hold h m) h l.holds e
                ∙ ap (λ x. total (kept_by w) l.holds +ℤ (if str_eq h.owner w then x else pos 0))
                    (kept_for m h.amount))
              (i.kept_sum w)
              (λ b g. less _ _ _ _ g (
                i.kept_sum w
                ∙ counter-known WorkflowRow.budget_reserved h.owner w r j.workflows at b))
            ∙ sym (counter-insert WorkflowRow.budget_reserved h.owner w r' j.workflows);
        cost_sum = λ w.
            moved (str_eq h.owner w) _ _ (pos 0) (charged_of m h.amount) _ r'.budget_consumed
              (ap
                  (λ c.
                    total (cost_to w) (insert key (spent_hold h m) l.holds)
                    +ℤ (if str_eq h.owner w then cost c h.amount else pos 0))
                  (sym p)
                ∙ total-insert_over (cost_to w) key (spent_hold h m) h l.holds e
                ∙ ap (λ x. total (cost_to w) l.holds +ℤ (if str_eq h.owner w then x else pos 0))
                    (cost_for m h.amount))
              (i.cost_sum w)
              (λ b g.
                sym (add_zero _)
                ∙ g
                ∙ ap (λ x. x +ℤ charged_of m h.amount)
                    (i.cost_sum w
                      ∙ counter-known WorkflowRow.budget_consumed h.owner w r j.workflows at b))
            ∙ sym (counter-insert WorkflowRow.budget_consumed h.owner w r' j.workflows);
      }

  covers_after :
      (key : String) (h : Hold) (m : Option ℕ) (r : WorkflowRow) (acc : Account)
      → lookup key l.holds ≡ some h
      → h.charge ≡ pending
      → lookup h.owner j.workflows ≡ some r
      → lookup h.owner l.accounts ≡ some acc
      → acc.budget ≡ r.budget_microunits
      → covers h.owner (spent key h m l) ≡ within_budget (settled_row (row_of h) m r)
  unfolding within_budget
  covers_after key h m r acc e p at found same =
      let after = after_settle key h m r e p at in
      let r' : WorkflowRow = settled_row (row_of h) m r in
      let held_sum : total (kept_by h.owner) (spent key h m l).holds ≡ r'.budget_reserved =
        after.kept_sum h.owner
        ∙ counter-insert WorkflowRow.budget_reserved h.owner h.owner r' j.workflows
        ∙ rw (eq_refl h.owner) refl in
      let paid_sum : total (cost_to h.owner) (spent key h m l).holds ≡ r'.budget_consumed =
        after.cost_sum h.owner
        ∙ counter-insert WorkflowRow.budget_consumed h.owner h.owner r' j.workflows
        ∙ rw (eq_refl h.owner) refl in
      rw (covers, found, same, held_sum, paid_sum) refl

  settle_pending :
      (key : String) (m : Option ℕ) (h : Hold) (acc : Account)
      → lookup key l.holds ≡ some h
      → h.charge ≡ pending
      → lookup h.owner l.accounts ≡ some acc
      → Simulates (release_reservation key m j) (settle_hold key m l)
  settle_pending key m h acc e p found =
      let (r, at, same, _, _) = account_row j l i h.owner acc found in
      let row = known_row j l i key h e in
      let fit = covers_after key h m r acc e p at found same in
      elim (Bool-cases (within_budget (settled_row (row_of h) m r))) [
        | inl fine ↦
            Simulates-at (release-ok j key m (row_of h) r row (ap state_of p) at fine)
              (settle_hold-ok key m l h e p (fit ∙ fine)) (after_settle key h m r e p at, refl)
        | inr over ↦
            Simulates-at (release-over j key m (row_of h) r row (ap state_of p) at over)
              (settle_hold-over key m l h e p (fit ∙ over)) (i, refl)
      ]

  pub settle-Simulates :
      (key : String) (m : Option ℕ) → Simulates (release_reservation key m j) (settle_hold key m l)
  settle-Simulates key m = elim (Option-cases (lookup key l.holds)) [
    | inl empty ↦
        Simulates-at (release-unknown j key m (no_row j l i key empty))
          (settle_hold-unknown key m l empty) (i, refl)
    | inr (h, e) ↦ elim (Charge-cases h.charge) [
      | inr (c, c') ↦
          Simulates-at (release-spent j key m (row_of h) (known_row j l i key h e) c')
            (settle_hold-spent key m l h e c) (i, refl)
      | inl p ↦ elim (Option-cases (lookup h.owner l.accounts)) [
        | inl lost ↦ absurd (i.owners key h e lost)
        | inr (acc, found) ↦ settle_pending key m h acc e p found
      ]
    ]
  ]
