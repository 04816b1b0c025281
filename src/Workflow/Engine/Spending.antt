-- ===== src/Workflow/Engine/Spending.antt =====
-- What the engine of crates/workflow-engine/src/engine.rs reserves and releases in the journal.
use dds_llm_orchestrator.Base.{
  ℕ, ◌≤◌, All, ◌+ℤ◌, ◌≤ℤ◌, String, Bool, true, false, ◌&&◌, ◌||◌, ◌≡◌, sym, subst, none, some, List,
  if◌then◌else◌, any, str_eq,
}
use dds_llm_orchestrator.Base.Dict.{Dict, lookup, contains_key, mem}
use dds_llm_orchestrator.Base.Keeps.{Keeps, keeps_lookup, keeps_test}
use dds_llm_orchestrator.Workflow.Graph.{PlanGraph}
use dds_llm_orchestrator.Workflow.Journal.Rows.{
  Admission, Journal, AttemptRow, OutboxRow, WorkflowRow,
}
use dds_llm_orchestrator.Workflow.Journal.Attempts.{record_attempt, attempt_at, attempt_states}
use dds_llm_orchestrator.Workflow.Journal.Outbox.{outbox_append}
use dds_llm_orchestrator.Workflow.Journal.Totals.{total}
use dds_llm_orchestrator.Workflow.Journal.Calls.{Call, run, run_ledger, empty_journal, empty_ledger}
use dds_llm_orchestrator.Workflow.Journal.Ledger.{Ledger, admit_account, reserve_hold, settle_hold}
use dds_llm_orchestrator.Workflow.Journal.Ledger.Relation.{Implements}
use dds_llm_orchestrator.Workflow.Journal.{admit_workflow}
use dds_llm_orchestrator.Workflow.Journal.Ledger.Admitting.{admit-Simulates}
use dds_llm_orchestrator.Workflow.Journal.Ledger.Reserving.{reserve-Simulates}
use dds_llm_orchestrator.Workflow.Journal.Ledger.Settling.{settle-Simulates}
use dds_llm_orchestrator.Workflow.Journal.Ledger.Refinement.{run-refines, empty-Implements}
use dds_llm_orchestrator.Workflow.Journal.Ledger.Budget.{
  Checked, Checked-at, held_by, reserved_total, reserve-Checked, release_reservation-Checked,
  admit_workflow-Checked, run-Checked, empty-Checked, other-Checked,
}
use dds_llm_orchestrator.Workflow.Journal.Ledger.Amounts.{
  i64_max, ArePlain, IsSmallCall, IsInRange, reserve_hold-ArePlain, settle_hold-ArePlain,
  admit_account-ArePlain, run_ledger-ArePlain, plain-IsInRange,
}
use dds_llm_orchestrator.Workflow.Engine.{NodeProgress}
use dds_llm_orchestrator.Workflow.Engine.Events.{Event, Pays, run_events, Write}
use dds_llm_orchestrator.Workflow.Engine.Moves.{run_events-Holds}

-- The journal stands for a ledger without negative amounts, and its rows pass their constraint.
pub Sound : Journal → Type 0
Sound j = (l : Ledger) × Implements j l × Checked j × ArePlain l

-- The amount fits in a signed 64-bit integer.
abbrev pub FitsI64 : ℕ → Type 0
FitsI64 n = n ≤ i64_max

other-Implements :
    (j : Journal) (l : Ledger) (attempts : List AttemptRow) (outbox : List OutboxRow)
    → Implements j l
    → Implements (record j { attempts = attempts; outbox = outbox }) l
other-Implements j l attempts outbox i = record {
  hashes = i.hashes;
  budgets = i.budgets;
  owners = i.owners;
  rows = i.rows;
  kept_sum = i.kept_sum;
  cost_sum = i.cost_sum;
}

other-Sound :
    (j : Journal) (attempts : List AttemptRow) (outbox : List OutboxRow)
    → Sound j
    → Sound (record j { attempts = attempts; outbox = outbox })
unfolding Sound
other-Sound j attempts outbox (l, i, c, a) =
    (l, other-Implements j l attempts outbox i, other-Checked j attempts outbox c, a)

record_attempt-Sound :
    (foreign_keys : Bool) (wf id : String) (attempt : ℕ) (task_id state : String) (j : Journal)
    → Sound j
    → Sound (record_attempt foreign_keys wf id attempt task_id state j).0
unfolding record_attempt
record_attempt-Sound foreign_keys wf id attempt task_id state j s =
    keeps_test Sound (mem state attempt_states) _ _
      (keeps_lookup Sound (attempt_at wf id attempt j.attempts) _ _
        (keeps_test Sound
          ((foreign_keys && (if contains_key wf j.workflows then false else true))
            || any (λ r. str_eq r.task_id task_id) j.attempts)
          _ _ s (other-Sound j _ j.outbox s))
        (λ r. other-Sound j _ j.outbox s))
      s

outbox_append-Sound :
    (wf kind payload : String) (j : Journal) → Sound j → Sound (outbox_append wf kind payload j).0
unfolding outbox_append
outbox_append-Sound wf kind payload j s = other-Sound j j.attempts _ s

pub Write-Sound :
    (foreign_keys : Bool) (j j' : Journal) → Write foreign_keys FitsI64 j j' → Sound j → Sound j'
unfolding Sound
Write-Sound foreign_keys j _ (Write.reserves q small) (l, i, c, a) = (
  (reserve_hold q l).0,
  (reserve-Simulates j l i q).0,
  reserve-Checked q j c,
  reserve_hold-ArePlain q l small a,
)
Write-Sound foreign_keys j _ (Write.releases key) (l, i, c, a) = (
  (settle_hold key none l).0,
  (settle-Simulates j l i key none).0,
  release_reservation-Checked key none j c,
  settle_hold-ArePlain key none l tt a,
)
Write-Sound foreign_keys j _ (Write.records wf id attempt task_id state) s =
    record_attempt-Sound foreign_keys wf id attempt task_id state j s
Write-Sound foreign_keys j _ (Write.appends wf kind payload) s =
    outbox_append-Sound wf kind payload j s

pub admit_workflow-Sound : (a : Admission) → Keeps Sound (admit_workflow a)
unfolding Sound
admit_workflow-Sound a j (l, i, c, p) = (
  (admit_account a l).0,
  (admit-Simulates j l i a).0,
  admit_workflow-Checked a j c,
  admit_account-ArePlain a l p,
)

pub empty-Sound : Sound empty_journal
unfolding Sound
empty-Sound = (empty_ledger, empty-Implements, empty-Checked, tt)

run-Sound : (cs : List Call) → All IsSmallCall cs → Sound (run cs empty_journal).0
unfolding Sound
run-Sound cs small = (
  (run_ledger cs empty_ledger).0,
  (run-refines cs empty_journal empty_ledger empty-Implements).0,
  run-Checked cs empty_journal empty-Checked,
  run_ledger-ArePlain cs empty_ledger small tt,
)

-- What is held for a workflow and what it was charged come to no more than its budget, and no amount
-- of the journal is negative.
abbrev pub SpendsWithin : String → WorkflowRow → Journal → Type 0
SpendsWithin wf r j =
    (total (held_by wf) j.reservations +ℤ r.budget_consumed ≤ℤ r.budget_microunits) × IsInRange j

pub Sound-budget :
    (j : Journal) (wf : String) (r : WorkflowRow)
    → Sound j
    → lookup wf j.workflows ≡ some r
    → SpendsWithin wf r j
unfolding Sound
Sound-budget j wf r (l, i, c, a) e = (
  subst (λ x. x +ℤ r.budget_consumed ≤ℤ r.budget_microunits) (sym (reserved_total j l wf r i e))
      (Checked-at j wf r c e),
  plain-IsInRange j l i c a,
)

-- From any calls on an empty database and any progress of the nodes, where every amount that is
-- reserved or measured is below 2^63 microunits, and whatever the engine publishes, finishes or
-- loses, in any order: what is held for a workflow and what it was charged come to no more than its
-- budget. No reservation is negative, and what every workflow has reserved and consumed stays between
-- 0 and its budget.
pub run_events-within_budget :
    (digest : String → String) (foreign_keys : Bool) (g : PlanGraph) (cs : List Call)
    (nodes : Dict NodeProgress) (es : List Event) (wf : String) (r : WorkflowRow)
    → All IsSmallCall cs
    → All (Pays FitsI64) es
    → lookup wf
        (run_events digest foreign_keys g es
          (record { nodes = nodes; store = (run cs empty_journal).0 })).store.workflows
      ≡ some r
    → SpendsWithin wf r
        (run_events digest foreign_keys g es
          (record { nodes = nodes; store = (run cs empty_journal).0 })).store
run_events-within_budget digest foreign_keys g cs nodes es wf r small paid e =
    Sound-budget _ wf r
      (run_events-Holds digest foreign_keys g FitsI64 (λ w. Sound w.store) (λ id spec w n e s. s)
        (λ id spec p p' w n e m s. s) (λ w j m s. Write-Sound foreign_keys w.store j m s) es
        (record { nodes = nodes; store = (run cs empty_journal).0 }) paid (run-Sound cs small))
      e
