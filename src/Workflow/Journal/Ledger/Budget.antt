-- ===== src/Workflow/Journal/Ledger/Budget.antt =====
-- The CHECK of the workflows table and the held reservations, in the calls of
-- crates/workflow-engine/src/journal.rs.
use dds_llm_orchestrator.Base.{
  ℕ, ℤ, pos, ◌+ℤ◌, ◌≤ℤ◌, ltb_ℤ, as_i64, String, ◌≡◌, refl, sym, ap, ◌∙◌, true, none, some, Option,
  Option-cases, inl, inr, List, [], ◌∷◌, ◌>>◌, pure, if◌then◌else◌, str_eq, leb→le, arith,
}
use dds_llm_orchestrator.Base.Dict.{Dict, lookup, lookup-insert, map_values, contains_key}
use dds_llm_orchestrator.Workflow.Journal.{
  within_budget, reserve, hold, update_workflow, set_reservation, release_reservation, settle,
  admit_workflow, admit_rows, insert_decision, insert_workflow, insert_intent, workflow_row,
  reservation_row, add_reserved,
}
use dds_llm_orchestrator.Workflow.Journal.Rows.{
  AttemptRow, OutboxRow, Journal, ReservationRow, held, WorkflowRow, Admission, Reserve, admitted,
  reserved,
}
use dds_llm_orchestrator.Workflow.Journal.Outcomes.{left_of, spent_row, settled_row}
use dds_llm_orchestrator.Base.Keeps.{Keeps, Keeps-then, keeps_lookup, keeps_test}
use dds_llm_orchestrator.Workflow.Journal.Keeps.{Keeps-transaction, keeps_state}
use dds_llm_orchestrator.Workflow.Journal.Totals.{total}
use dds_llm_orchestrator.Workflow.Journal.Ledger.{Hold, Ledger, kept_by}
use dds_llm_orchestrator.Workflow.Journal.Ledger.Relation.{row_of, Implements}
use dds_llm_orchestrator.Workflow.Journal.Calls.{
  Call, admit, take, release, call, run, empty_journal,
}

-- Every row of a workflow passes its constraint.
pub Checked : Journal → Type 0
Checked j = (w : String) (r : WorkflowRow) → lookup w j.workflows ≡ some r → within_budget r ≡ true

update_workflow-Checked :
    (w : String) (set : WorkflowRow → WorkflowRow) → Keeps Checked (update_workflow w set)
unfolding Checked update_workflow
update_workflow-Checked w set j p v r e = elim (Option-cases (lookup w j.workflows)) [
  | inl empty ↦ ground (arith, e, empty, p v r)
  | inr (x, found) ↦ ground (arith, e, found, p v r, lookup-insert w v (set x) j.workflows)
]

set_reservation-Checked : (k : String) (v : ReservationRow) → Keeps Checked (set_reservation k v)
unfolding Checked set_reservation
set_reservation-Checked k v j p = p

insert_decision-Checked : (a : Admission) → Keeps Checked (insert_decision a)
unfolding Checked insert_decision
insert_decision-Checked a j p = keeps_test Checked (contains_key a.workflow_id j.decisions) _ _ p p

insert_workflow-Checked : (a : Admission) → Keeps Checked (insert_workflow a)
unfolding Checked insert_workflow
insert_workflow-Checked a j p v r e =
    ground (arith, e, p v r, lookup-insert a.workflow_id v (workflow_row a) j.workflows)

insert_intent-Checked : (a : Admission) → Keeps Checked (insert_intent a)
unfolding Checked insert_intent
insert_intent-Checked a j p = keeps_test Checked (contains_key a.workflow_id j.intents) _ _ p p

admit_rows-Checked : (a : Admission) → Keeps Checked (admit_rows a)
unfolding admit_rows
admit_rows-Checked a =
    Keeps-then Checked (insert_decision a >> insert_workflow a >> insert_intent a) (pure admitted)
      (Keeps-then Checked (insert_decision a >> insert_workflow a) (insert_intent a)
        (Keeps-then Checked (insert_decision a) (insert_workflow a) (insert_decision-Checked a)
          (insert_workflow-Checked a))
        (insert_intent-Checked a))
      (λ j p. p)

hold-Checked : (q : Reserve) → Keeps Checked (hold q)
unfolding hold
hold-Checked q j p = keeps_lookup Checked (lookup q.workflow_id j.workflows) _ _ p λ r.
    keeps_test Checked (ltb_ℤ (left_of r) (as_i64 q.microunits)) _ _ p (
      Keeps-then Checked
        (update_workflow q.workflow_id (add_reserved (as_i64 q.microunits))
          >> set_reservation q.idempotency_key (reservation_row q))
        (pure (reserved q.tokens q.microunits))
        (Keeps-then Checked (update_workflow q.workflow_id (add_reserved (as_i64 q.microunits)))
          (set_reservation q.idempotency_key (reservation_row q)) (update_workflow-Checked _ _)
          (set_reservation-Checked _ _))
        (λ j p. p) j p)

settle-Checked : (k : String) (v : ReservationRow) (m : Option ℕ) → Keeps Checked (settle k v m)
unfolding settle
settle-Checked k v m =
    Keeps-then Checked (set_reservation k (spent_row v m))
      (update_workflow v.workflow_id (settled_row v m)) (set_reservation-Checked _ _)
      (update_workflow-Checked _ _)

pub admit_workflow-Checked : (a : Admission) → Keeps Checked (admit_workflow a)
unfolding admit_workflow
admit_workflow-Checked a j p =
    keeps_lookup Checked (lookup a.workflow_id j.decisions) _ _
      (Keeps-transaction Checked (admit_rows a) (admit_rows-Checked a) j p) (λ d. p)

pub reserve-Checked : (q : Reserve) → Keeps Checked (reserve q)
unfolding reserve
reserve-Checked q j p =
    keeps_lookup Checked (lookup q.idempotency_key j.reservations) _ _
      (Keeps-transaction Checked (hold q) (hold-Checked q) j p) (λ v. p)

pub release_reservation-Checked :
    (k : String) (m : Option ℕ) → Keeps Checked (release_reservation k m)
unfolding release_reservation
release_reservation-Checked k m j p = keeps_lookup Checked (lookup k j.reservations) _ _ p λ v.
    keeps_state Checked v.state _ _
      (Keeps-transaction Checked (settle k v m) (settle-Checked k v m) j p) p

pub run-Checked : (cs : List Call) (j : Journal) → Checked j → Checked (run cs j).0
unfolding call run
run-Checked [] j p = p
run-Checked (admit a ∷ cs) j p = run-Checked cs _ (admit_workflow-Checked a j p)
run-Checked (take q ∷ cs) j p = run-Checked cs _ (reserve-Checked q j p)
run-Checked (release k m ∷ cs) j p = run-Checked cs _ (release_reservation-Checked k m j p)

pub empty-Checked : Checked empty_journal
unfolding Checked lookup
empty-Checked w r e = ground (arith, e)

-- The other tables do not matter.
pub other-Checked :
    (j : Journal) (attempts : List AttemptRow) (outbox : List OutboxRow)
    → Checked j
    → Checked (record j { attempts = attempts; outbox = outbox })
unfolding Checked
other-Checked j attempts outbox c = c

pub Checked-at :
    (j : Journal) (w : String) (r : WorkflowRow)
    → Checked j
    → lookup w j.workflows ≡ some r
    → r.budget_reserved +ℤ r.budget_consumed ≤ℤ r.budget_microunits
unfolding Checked within_budget
Checked-at j w r c e = leb→le _ _ (c w r e)

-- What a reservation that is held keeps back of a workflow's budget.
unfoldable pub held_by : String → ReservationRow → ℤ
held_by w v =
    if str_eq v.workflow_id w
    then (elim v.state [ held ↦ v.microunits_reserved | _ ↦ pos 0 ])
    else pos 0

kept_held : (w : String) (h : Hold) → kept_by w h ≡ held_by w (row_of h)
unfolding held_by
kept_held w h = ground arith

kept_total :
    (w : String) (m : Dict Hold) → total (kept_by w) m ≡ total (held_by w) (map_values row_of m)
kept_total w [] = refl
kept_total w ((k, h) ∷ m) =
    ap (λ x. x +ℤ total (kept_by w) m) (kept_held w h)
    ∙ ap (λ x. held_by w (row_of h) +ℤ x) (kept_total w m)

-- The counter of a workflow is the sum of the reservations held for it.
pub reserved_total :
    (j : Journal) (l : Ledger) (w : String) (r : WorkflowRow)
    → Implements j l
    → lookup w j.workflows ≡ some r
    → total (held_by w) j.reservations ≡ r.budget_reserved
reserved_total j l w r i e =
    ap (total (held_by w)) (sym i.rows)
    ∙ sym (kept_total w l.holds)
    ∙ i.kept_sum w
    ∙ ap (λ o. elim o [ none ↦ pos 0 | some r ↦ r.budget_reserved ]) e
