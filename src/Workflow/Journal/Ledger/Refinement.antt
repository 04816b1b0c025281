-- ===== src/Workflow/Journal/Ledger/Refinement.antt =====
-- Sequences of calls of crates/workflow-engine/src/journal.rs beside those of the ledger.
use dds_llm_orchestrator.Base.{◌≡◌, refl, ap, List, [], ◌∷◌, Result, ◌∙◌, arith}
use dds_llm_orchestrator.Base.Dict.{lookup}
use dds_llm_orchestrator.Workflow.Journal.Rows.{Journal, JournalError}
use dds_llm_orchestrator.Workflow.Journal.Ledger.{Ledger}
use dds_llm_orchestrator.Workflow.Journal.Calls.{
  Call, admit, take, release, Reply, admission, reservation, released, call, run, call_ledger,
  run_ledger, empty_journal, empty_ledger, with_reply,
}
use dds_llm_orchestrator.Workflow.Journal.Ledger.Relation.{Implements, Simulates}
use dds_llm_orchestrator.Workflow.Journal.Ledger.Reserving.{reserve-Simulates}
use dds_llm_orchestrator.Workflow.Journal.Ledger.Settling.{settle-Simulates}
use dds_llm_orchestrator.Workflow.Journal.Ledger.Admitting.{admit-Simulates}

-- Corresponding states and the same replies.
abbrev pub Agree : {R : Type 0} → Journal × R → Ledger × R → Type 0
Agree x y = Implements x.0 y.0 × (x.1 ≡ y.1)

replied :
    {A : Type 0} (f : Result JournalError A → Reply) (x : Journal × Result JournalError A)
    (y : Ledger × Result JournalError A)
    → Simulates x y
    → Agree (with_reply f x) (with_reply f y)
replied f (j, r) (l, s) (i, e) = (i, ap f e)

call-refines :
    (c : Call) (j : Journal) (l : Ledger) → Implements j l → Agree (call c j) (call_ledger c l)
unfolding call call_ledger
call-refines (admit a) j l i = replied admission _ _ (admit-Simulates j l i a)
call-refines (take q) j l i = replied reservation _ _ (reserve-Simulates j l i q)
call-refines (release key m) j l i = replied released _ _ (settle-Simulates j l i key m)

pub run-refines :
    (cs : List Call) (j : Journal) (l : Ledger)
    → Implements j l
    → Agree (run cs j) (run_ledger cs l)
unfolding run run_ledger
run-refines [] j l i = (i, refl)
run-refines (c ∷ cs) j l i =
    let (next, same) = call-refines c j l i in
    let (last, rest) = run-refines cs (call c j).0 (call_ledger c l).0 next in
    (last, ap (λ r. r ∷ (run cs (call c j).0).1) same ∙ ap (λ rs. (call_ledger c l).1 ∷ rs) rest)

pub empty-Implements : Implements empty_journal empty_ledger
unfolding lookup
empty-Implements = record {
  hashes = refl;
  budgets = refl;
  owners = λ k h e. ground (arith, e);
  rows = refl;
  kept_sum = λ w. refl;
  cost_sum = λ w. refl;
}
