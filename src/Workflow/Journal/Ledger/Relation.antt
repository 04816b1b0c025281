-- ===== src/Workflow/Journal/Ledger/Relation.antt =====
-- How the tables of the journal stand for a ledger.
use dds_llm_orchestrator.Base.{
  ℤ, pos, ◌+ℤ◌, String, ◌≡◌, ◌≢◌, refl, sym, ap, ◌∙◌, true, none, some, Option-cases, ◌⊎◌, inl, inr,
  Result, subst, if◌then◌else◌, str_eq, eq_iff, arith, int_laws,
}
use dds_llm_orchestrator.Base.Dict.{
  Dict, lookup, insert, map_values, map_option, lookup-map_values, map_values-insert, lookup-insert,
  insert-same,
}
use dds_llm_orchestrator.Workflow.Journal.{replay_of}
use dds_llm_orchestrator.Workflow.Journal.Rows.{
  Journal, JournalError, ReservationRow, ReservationState, held, consumed_measured, consumed_full,
  WorkflowRow, DecisionRow,
}
use dds_llm_orchestrator.Workflow.Journal.Totals.{total}
use dds_llm_orchestrator.Workflow.Journal.Ledger.{
  Charge, pending, full, measured, Hold, Account, Ledger, kept_by, cost_to, outcome_of,
}

abbrev pub state_of : Charge → ReservationState
state_of pending = held
state_of full = consumed_full
state_of (measured n) = consumed_measured

-- The row that stands for a hold: it forgets what was measured.
abbrev pub row_of : Hold → ReservationRow
row_of h = record {
  workflow_id = h.owner;
  purpose = h.purpose;
  tokens_reserved = h.tokens;
  microunits_reserved = h.amount;
  state = state_of h.charge;
}

-- A counter of a workflow, 0 where there is no such row.
abbrev pub counter : (WorkflowRow → ℤ) → String → Dict WorkflowRow → ℤ
counter f w m = elim (lookup w m) [ none ↦ pos 0 | some r ↦ f r ]

pub record Implements (j : Journal) (l : Ledger) : Type 0 where
  pub hashes :
      map_values Account.payload_hash l.accounts ≡ map_values DecisionRow.payload_hash j.decisions
  pub budgets :
      map_values Account.budget l.accounts ≡ map_values WorkflowRow.budget_microunits j.workflows
  pub owners :
      (k : String) (h : Hold) → lookup k l.holds ≡ some h → lookup h.owner l.accounts ≢ none
  pub rows : map_values row_of l.holds ≡ j.reservations
  pub kept_sum :
      (w : String) → total (kept_by w) l.holds ≡ counter WorkflowRow.budget_reserved w j.workflows
  pub cost_sum :
      (w : String) → total (cost_to w) l.holds ≡ counter WorkflowRow.budget_consumed w j.workflows

-- The same reply, in states that correspond.
abbrev pub Simulates :
    {A : Type 0} → Journal × Result JournalError A → Ledger × Result JournalError A → Type 0
Simulates x y = Implements x.0 y.0 × (x.1 ≡ y.1)

pub Simulates-at :
    {A : Type 0} {x x' : Journal × Result JournalError A} {y y' : Ledger × Result JournalError A}
    → x ≡ x'
    → y ≡ y'
    → Simulates x' y'
    → Simulates x y
Simulates-at {x' = x'} {y = y} p q s =
    subst (λ x. Simulates x y) (sym p) (subst (λ y. Simulates x' y) (sym q) s)

pub Charge-cases : (c : Charge) → (c ≡ pending) ⊎ ((c ≢ pending) × (state_of c ≢ held))
Charge-cases pending = inl refl
Charge-cases full = inr (ground arith, ground arith)
Charge-cases (measured n) = inr (ground arith, ground arith)

pub add_zero : (a : ℤ) → a +ℤ pos 0 ≡ a
add_zero a = omega int_laws

pub same_lookup {ℓ κ μ} :
    {V : Type ℓ} {W : Type κ} {X : Type μ} (f : V → X) (g : W → X) (k : String) (m : Dict V)
    (n : Dict W)
    → map_values f m ≡ map_values g n
    → map_option f (lookup k m) ≡ map_option g (lookup k n)
same_lookup f g k m n h = sym (lookup-map_values f k m) ∙ ap (lookup k) h ∙ lookup-map_values g k n

pub same_outcome : (h : Hold) → replay_of (row_of h) ≡ outcome_of h
same_outcome h = ground arith

pub counter-insert :
    (f : WorkflowRow → ℤ) (w v : String) (r : WorkflowRow) (m : Dict WorkflowRow)
    → counter f v (insert w r m) ≡ (if str_eq w v then f r else counter f v m)
counter-insert f w v r m = ground (arith, lookup-insert w v r m)

pub counter-known :
    (f : WorkflowRow → ℤ) (w v : String) (r : WorkflowRow) (m : Dict WorkflowRow)
    → lookup w m ≡ some r
    → str_eq w v ≡ true
    → counter f v m ≡ f r
counter-known f w v r m e h = ground (arith, eq_iff w v)

pub budgets-insert :
    (w : String) (r r' : WorkflowRow) (m : Dict WorkflowRow)
    → lookup w m ≡ some r
    → r'.budget_microunits ≡ r.budget_microunits
    → map_values WorkflowRow.budget_microunits m
      ≡ map_values WorkflowRow.budget_microunits (insert w r' m)
budgets-insert w r r' m e same = sym (
    map_values-insert WorkflowRow.budget_microunits w r' m
    ∙ ap (λ b. insert w b (map_values WorkflowRow.budget_microunits m)) same
    ∙ insert-same w r.budget_microunits (map_values WorkflowRow.budget_microunits m) (
        lookup-map_values WorkflowRow.budget_microunits w m
        ∙ ap (map_option WorkflowRow.budget_microunits) e))

module _ (j : Journal) (l : Ledger) (i : Implements j l) where
  pub row_at : (k : String) → map_option row_of (lookup k l.holds) ≡ lookup k j.reservations
  row_at k = sym (lookup-map_values row_of k l.holds) ∙ ap (lookup k) i.rows

  pub known_row :
      (k : String) (h : Hold)
      → lookup k l.holds ≡ some h
      → lookup k j.reservations ≡ some (row_of h)
  known_row k h e = sym (row_at k) ∙ ap (map_option row_of) e

  pub no_row : (k : String) → lookup k l.holds ≡ none → lookup k j.reservations ≡ none
  no_row k e = sym (row_at k) ∙ ap (map_option row_of) e

  pub same_budget :
      (w : String)
      → map_option Account.budget (lookup w l.accounts)
        ≡ map_option WorkflowRow.budget_microunits (lookup w j.workflows)
  same_budget w = same_lookup _ _ w l.accounts j.workflows i.budgets

  -- What the relation says of an account and its row.
  pub account_row :
      (w : String) (acc : Account)
      → lookup w l.accounts ≡ some acc
      → (r : WorkflowRow) × (lookup w j.workflows ≡ some r)
        × (acc.budget ≡ r.budget_microunits)
        × (total (kept_by w) l.holds ≡ r.budget_reserved)
        × (total (cost_to w) l.holds ≡ r.budget_consumed)
  account_row w acc e = elim (Option-cases (lookup w j.workflows)) [
    | inl empty ↦ ground (arith, same_budget w)
    | inr (r, found) ↦ (
      r,
      found,
      ground (arith, same_budget w),
      i.kept_sum w ∙ ap (λ o. elim o [ none ↦ pos 0 | some r ↦ r.budget_reserved ]) found,
      i.cost_sum w ∙ ap (λ o. elim o [ none ↦ pos 0 | some r ↦ r.budget_consumed ]) found,
    )
  ]

  pub no_account_row : (w : String) → lookup w l.accounts ≡ none → lookup w j.workflows ≡ none
  no_account_row w e = ground (arith, same_budget w)
