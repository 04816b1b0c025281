-- ===== src/Workflow/Journal/Ledger/Amounts.antt =====
-- The amounts that stand in the ledger and in the rows of crates/workflow-engine/src/journal.rs, where
-- what is reserved and what is measured fits in a signed 64-bit integer.
use dds_llm_orchestrator.Base.{
  ℕ, ◌≤◌, ℤ, pos, ◌+ℤ◌, ◌≤ℤ◌, as_i64, String, ◌≡◌, refl, sym, ap, subst, ◌∙◌, none, some, Option,
  Result, inl, inr, List, [], ◌∷◌, All, str_eq, arith, +ℤ_parts, ltb_ℤ, leb_ℤ, Bool-cases,
}
use dds_llm_orchestrator.Base.Dict.{Dict, lookup, insert, map_option, lookup-map_values}
use dds_llm_orchestrator.Workflow.Journal.Rows.{
  Journal, ReservationRow, WorkflowRow, Admission, Reserve, JournalError,
}
use dds_llm_orchestrator.Base.Keeps.{keeps_lookup, keeps_test}
use dds_llm_orchestrator.Workflow.Journal.Totals.{total}
use dds_llm_orchestrator.Workflow.Journal.Ledger.{
  Charge, pending, full, measured, Hold, Ledger, kept, cost, kept_by, cost_to, admit_account,
  reserve_hold, settle_hold, new_hold, charge_for, covers, funds,
}
use dds_llm_orchestrator.Workflow.Journal.Ledger.Relation.{row_of, counter, Implements}
use dds_llm_orchestrator.Workflow.Journal.Ledger.Refinement.{run-refines, empty-Implements}
use dds_llm_orchestrator.Workflow.Journal.Ledger.Budget.{
  Checked, Checked-at, run-Checked, empty-Checked,
}
use dds_llm_orchestrator.Workflow.Journal.Calls.{
  Call, admit, take, release, run, call_ledger, run_ledger, empty_journal, empty_ledger,
}

-- The largest signed 64-bit integer.
abbrev pub i64_max : ℕ
i64_max = 9223372036854775807

-- A hold of an amount that is no less than 0, and so is what it cost.
abbrev pub IsPlain : Hold → Type 0
IsPlain h = (pos 0 ≤ℤ h.amount) × (pos 0 ≤ℤ cost h.charge h.amount)

abbrev pub ArePlain : Ledger → Type 0
ArePlain l = All (λ e. IsPlain e.1) l.holds

insert-All :
    (k : String) (h : Hold) (m : Dict Hold)
    → IsPlain h
    → All (λ e. IsPlain e.1) m
    → All (λ e. IsPlain e.1) (insert k h m)
unfolding insert
insert-All k h [] p a = (p, tt)
insert-All k h ((j, x) ∷ m) p a = elim (Bool-cases (str_eq j k)) [
  | inl same ↦ rw (insert, same) (p, a.1)
  | inr other ↦ rw (insert, other) (a.0, insert-All k h m p a.1)
]

All-lookup :
    (k : String) (h : Hold) (m : Dict Hold)
    → All (λ e. IsPlain e.1) m
    → lookup k m ≡ some h
    → IsPlain h
unfolding lookup
All-lookup k h [] a e = ground (arith, e)
All-lookup k h ((j, x) ∷ m) a e = elim (Bool-cases (str_eq j k)) [
  | inl same ↦ subst IsPlain {x = x} {y = h} (ground (arith, e, same)) a.0
  | inr other ↦ All-lookup k h m a.1 (ground (arith, e, other))
]

as_i64-plain : (n : ℕ) → n ≤ i64_max → pos 0 ≤ℤ as_i64 n
as_i64-plain n h = ground (arith, h)

pub reserve_hold-ArePlain :
    (q : Reserve) (l : Ledger) → q.microunits ≤ i64_max → ArePlain l → ArePlain (reserve_hold q l).0
reserve_hold-ArePlain q l small a =
    keeps_lookup ArePlain (lookup q.idempotency_key l.holds) _ _
      (keeps_lookup ArePlain (lookup q.workflow_id l.accounts) _ _ a λ acc.
        keeps_test ArePlain (ltb_ℤ (funds q.workflow_id acc.budget l.holds) (as_i64 q.microunits)) _
          _ a
          (insert-All q.idempotency_key (new_hold q) l.holds
            (as_i64-plain q.microunits small, omega arith) a))
      (λ h. a)

-- A charge that was measured fits.
abbrev pub IsSmall : Option ℕ → Type 0
IsSmall none = Unit
IsSmall (some n) = n ≤ i64_max

charged-IsPlain :
    (h : Hold) (m : Option ℕ) → IsSmall m → IsPlain h → IsPlain (record h { charge = charge_for m })
charged-IsPlain h none s p = (p.0, p.0)
charged-IsPlain h (some n) s p = (p.0, as_i64-plain n s)

keeps_found :
    {R : Type 0} (o : Option Hold) (x : Ledger × R) (y : Hold → Ledger × R)
    → ArePlain x.0
    → ((h : Hold) → o ≡ some h → ArePlain (y h).0)
    → ArePlain (elim o as (λ _. Ledger × R) [ none ↦ x | some h ↦ y h ]).0
keeps_found none x y a each = a
keeps_found (some h) x y a each = each h refl

settled :
    (key : String) (m : Option ℕ) (l : Ledger) (h : Hold)
    → IsSmall m
    → ArePlain l
    → IsPlain h
    → All (λ e. IsPlain e.1) (insert key (record h { charge = charge_for m }) l.holds)
settled key m l h small a p =
    insert-All key (record h { charge = charge_for m }) l.holds (charged-IsPlain h m small p) a

keeps_charge :
    (c : Charge) (x y : Ledger × Result JournalError (Unit {0}))
    → ArePlain x.0
    → ArePlain y.0
    → ArePlain (elim c as (λ _. Ledger × Result JournalError (Unit {0})) [ pending ↦ x | _ ↦ y ]).0
keeps_charge pending x y p a = p
keeps_charge full x y p a = a
keeps_charge (measured n) x y p a = a

kept_plain : (c : Charge) (m : ℤ) → pos 0 ≤ℤ m → pos 0 ≤ℤ kept c m
kept_plain pending m h = h
kept_plain full m h = omega arith
kept_plain (measured n) m h = omega arith

pub settle_hold-ArePlain :
    (key : String) (m : Option ℕ) (l : Ledger)
    → IsSmall m
    → ArePlain l
    → ArePlain (settle_hold key m l).0
settle_hold-ArePlain key m l small a = keeps_found (lookup key l.holds) _ _ a λ h found.
    keeps_charge h.charge _ _
      (keeps_test ArePlain
        (covers h.owner
          (record l { holds = insert key (record h { charge = charge_for m }) l.holds }))
        _ _ (settled key m l h small a (All-lookup key h l.holds a found)) a)
      a

pub admit_account-ArePlain :
    (a : Admission) (l : Ledger) → ArePlain l → ArePlain (admit_account a l).0
admit_account-ArePlain a l p =
    keeps_lookup ArePlain (lookup a.workflow_id l.accounts) _ _
      (keeps_test ArePlain (leb_ℤ (pos 0) (as_i64 a.budget_microunits)) _ _ p p) (λ acc. p)

-- A call whose amount fits in a signed 64-bit integer: what it reserves or what it measured.
abbrev pub IsSmallCall : Call → Type 0
IsSmallCall (admit a) = Unit
IsSmallCall (take q) = q.microunits ≤ i64_max
IsSmallCall (release key m) = IsSmall m

pub run_ledger-ArePlain :
    (cs : List Call) (l : Ledger) → All IsSmallCall cs → ArePlain l → ArePlain (run_ledger cs l).0
unfolding run_ledger call_ledger
run_ledger-ArePlain [] l s a = a
run_ledger-ArePlain (admit x ∷ cs) l s a =
    run_ledger-ArePlain cs _ s.1 (admit_account-ArePlain x l a)
run_ledger-ArePlain (take q ∷ cs) l s a =
    run_ledger-ArePlain cs _ s.1 (reserve_hold-ArePlain q l s.0 a)
run_ledger-ArePlain (release key m ∷ cs) l s a =
    run_ledger-ArePlain cs _ s.1 (settle_hold-ArePlain key m l s.0 a)

kept-plain : (w : String) (h : Hold) → IsPlain h → pos 0 ≤ℤ kept_by w h
kept-plain w h p = elim (Bool-cases (str_eq h.owner w)) [
  | inl own ↦ rw own (kept_plain h.charge h.amount p.0)
  | inr other ↦ rw other (omega arith)
]

cost-plain : (w : String) (h : Hold) → IsPlain h → pos 0 ≤ℤ cost_to w h
cost-plain w h p = elim (Bool-cases (str_eq h.owner w)) [
  | inl own ↦ rw own p.1
  | inr other ↦ rw other (omega arith)
]

sum_plain : (a b : ℤ) → pos 0 ≤ℤ a → pos 0 ≤ℤ b → pos 0 ≤ℤ a +ℤ b
sum_plain a b x y = ground (arith, +ℤ_parts a b, x, y)

total-plain :
    (f : Hold → ℤ) (m : Dict Hold)
    → ((h : Hold) → IsPlain h → pos 0 ≤ℤ f h)
    → All (λ e. IsPlain e.1) m
    → pos 0 ≤ℤ total f m
total-plain f [] each a = omega arith
total-plain f ((k, h) ∷ m) each a = sum_plain _ _ (each h a.0) (total-plain f m each a.1)

-- What the rows of a journal hold: no reservation is negative, and for each workflow what is
-- reserved and what was charged are no less than 0 and together no more than its budget.
pub record IsInRange (j : Journal) : Type 0 where
  pub amounts :
      (k : String) (v : ReservationRow)
      → lookup k j.reservations ≡ some v
      → pos 0 ≤ℤ v.microunits_reserved
  pub reserved :
      (w : String) (r : WorkflowRow) → lookup w j.workflows ≡ some r → pos 0 ≤ℤ r.budget_reserved
  pub consumed :
      (w : String) (r : WorkflowRow) → lookup w j.workflows ≡ some r → pos 0 ≤ℤ r.budget_consumed
  pub covered :
      (w : String) (r : WorkflowRow)
      → lookup w j.workflows ≡ some r
      → r.budget_reserved +ℤ r.budget_consumed ≤ℤ r.budget_microunits

counted :
    (f : WorkflowRow → ℤ) (w : String) (r : WorkflowRow) (m : Dict WorkflowRow)
    → lookup w m ≡ some r
    → counter f w m ≡ f r
counted f w r m e = ap (λ o. elim o as (λ _. ℤ) [ none ↦ pos 0 | some r ↦ f r ]) e

row_amount :
    (o : Option Hold) (v : ReservationRow)
    → map_option row_of o ≡ some v
    → ((h : Hold) → o ≡ some h → IsPlain h)
    → pos 0 ≤ℤ v.microunits_reserved
row_amount none v e each = ground (arith, e)
row_amount (some h) v e each =
    subst (λ (x : ReservationRow). pos 0 ≤ℤ x.microunits_reserved) {x = row_of h} {y = v}
      (ground (arith, e)) (each h refl).0

pub plain-IsInRange :
    (j : Journal) (l : Ledger) → Implements j l → Checked j → ArePlain l → IsInRange j
plain-IsInRange j l i c a = record {
  amounts = λ k v e.
      row_amount (lookup k l.holds) v
        (sym (lookup-map_values row_of k l.holds) ∙ ap (lookup k) i.rows ∙ e)
        (λ h found. All-lookup k h l.holds a found);
  reserved = λ w r e.
      subst (λ x. pos 0 ≤ℤ x) (i.kept_sum w ∙ counted WorkflowRow.budget_reserved w r j.workflows e)
        (total-plain (kept_by w) l.holds (kept-plain w) a);
  consumed = λ w r e.
      subst (λ x. pos 0 ≤ℤ x) (i.cost_sum w ∙ counted WorkflowRow.budget_consumed w r j.workflows e)
        (total-plain (cost_to w) l.holds (cost-plain w) a);
  covered = λ w r e. Checked-at j w r c e;
}

-- From an empty database on, for calls of which each reserves or measured less than 2^63 microunits,
-- the journal answers every sequence of admissions, reservations and releases as the ledger does,
-- which keeps no counters: it sums over the holds at every call. No reservation is then negative, and
-- what a workflow has reserved and consumed stays between 0 and its budget.
pub run-answers :
    (cs : List Call)
    → All IsSmallCall cs
    → ((run cs empty_journal).1 ≡ (run_ledger cs empty_ledger).1)
      × IsInRange (run cs empty_journal).0
run-answers cs small =
    let (i, same) = run-refines cs empty_journal empty_ledger empty-Implements in
    (
      same,
      plain-IsInRange (run cs empty_journal).0 (run_ledger cs empty_ledger).0 i
          (run-Checked cs empty_journal empty-Checked)
          (run_ledger-ArePlain cs empty_ledger small tt),
    )
