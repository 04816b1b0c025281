-- ===== src/Workflow/Journal/Calls.antt =====
-- Sequences of the calls that touch the decisions, the budgets and the reservations.
use dds_llm_orchestrator.Base.{ℕ, String, Option, Result, List, [], ◌∷◌}
use dds_llm_orchestrator.Workflow.Journal.{admit_workflow, reserve, release_reservation}
use dds_llm_orchestrator.Workflow.Journal.Rows.{
  Journal, JournalError, AdmitOutcome, ReserveOutcome, Admission, Reserve,
}
use dds_llm_orchestrator.Workflow.Journal.Ledger.{Ledger, admit_account, reserve_hold, settle_hold}

pub data Call : Type 0 where
  admit : Admission → Call
  take : Reserve → Call
  release : String → Option ℕ → Call

pub data Reply : Type 0 where
  admission : Result JournalError AdmitOutcome → Reply
  reservation : Result JournalError ReserveOutcome → Reply
  released : Result JournalError (Unit {0}) → Reply

abbrev pub with_reply {ℓ κ μ} : {S : Type ℓ} {R : Type κ} {T : Type μ} → (R → T) → S × R → S × T
with_reply f (s, r) = (s, f r)

unfoldable pub call : Call → Journal → Journal × Reply
unfolding admit_workflow reserve release_reservation
call (admit a) j = with_reply admission (admit_workflow a j)
call (take q) j = with_reply reservation (reserve q j)
call (release key m) j = with_reply released (release_reservation key m j)

unfoldable pub run : List Call → Journal → Journal × List Reply
unfolding call
run [] j = (j, [])
run (c ∷ cs) j = let (j', r) = call c j in let (j'', rs) = run cs j' in (j'', r ∷ rs)

-- The same calls on the ledger.
unfoldable pub call_ledger : Call → Ledger → Ledger × Reply
call_ledger (admit a) l = with_reply admission (admit_account a l)
call_ledger (take q) l = with_reply reservation (reserve_hold q l)
call_ledger (release key m) l = with_reply released (settle_hold key m l)

unfoldable pub run_ledger : List Call → Ledger → Ledger × List Reply
unfolding call_ledger
run_ledger [] l = (l, [])
run_ledger (c ∷ cs) l =
    let (l', r) = call_ledger c l in let (l'', rs) = run_ledger cs l' in (l'', r ∷ rs)

abbrev pub empty_journal : Journal
empty_journal = record {
  intents = [];
  decisions = [];
  workflows = [];
  reservations = [];
  attempts = [];
  outbox = [];
}

abbrev pub empty_ledger : Ledger
empty_ledger = record { accounts = []; holds = [] }
