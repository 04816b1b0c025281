-- ===== src/Workflow/Journal/Keeps.antt =====
-- Predicates over the statements of a transaction of crates/workflow-engine/src/journal.rs.
use dds_llm_orchestrator.Base.{Result, ok, err, Method}
use dds_llm_orchestrator.Base.Keeps.{Keeps}
use dds_llm_orchestrator.Workflow.Journal.{transaction}
use dds_llm_orchestrator.Workflow.Journal.Rows.{
  Journal, JournalError, ReservationState, held, consumed_measured, consumed_full,
}

module _ (P : Journal → Type 0) where
  pub commit :
      {A : Type 0} (r : Result JournalError A) (j j' : Journal)
      → P j
      → P j'
      → P
          (elim r as (λ _. Journal × Result JournalError A) [
            | ok a ↦ (j, ok a)
            | err e ↦ (j', err e)
          ]).0
  commit (ok a) j j' p p' = p
  commit (err e) j j' p p' = p'

  pub Keeps-transaction :
      {A : Type 0} (m : Method Journal JournalError A) → Keeps P m → Keeps P (transaction m)
  Keeps-transaction m hm j p = commit (m j).1 (m j).0 j (hm j p) p

  pub keeps_state :
      {A : Type 0} (s : ReservationState) (x y : Journal × Result JournalError A)
      → P x.0
      → P y.0
      → P (elim s as (λ _. Journal × Result JournalError A) [ held ↦ x | _ ↦ y ]).0
  keeps_state held x y p q = p
  keeps_state consumed_measured x y p q = q
  keeps_state consumed_full x y p q = q
