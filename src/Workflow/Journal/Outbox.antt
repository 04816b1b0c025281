-- ===== src/Workflow/Journal/Outbox.antt =====
-- The outbox of crates/workflow-engine/src/journal.rs: `outbox_append` and `outbox_drain`.
-- Publishing is an effect on a transport `T` that may fail.
use dds_llm_orchestrator.Base.{
  ℕ, ◌==◌, String, true, false, Result, ok, err, Method, List, [], ◌∷◌, ◌++◌, map, select,
  if◌then◌else◌, not, leb, max, ◌+◌,
}
use dds_llm_orchestrator.Workflow.Journal.Rows.{OutboxRow, Journal, JournalError}

-- AUTOINCREMENT numbers a row past every number given before; no row of the outbox is deleted.
unfoldable pub next_seq : List OutboxRow → ℕ
next_seq [] = 1
next_seq (r ∷ rs) = max (r.seq + 1) (next_seq rs)

unfoldable pub outbox_append : String → String → String → Method Journal JournalError (Unit {0})
unfolding next_seq
outbox_append workflow_id kind payload j = (
  record j {
    outbox =
        j.outbox
        ++ record {
          seq = next_seq j.outbox;
          workflow_id = workflow_id;
          kind = kind;
          payload = payload;
          published = false;
        }
          ∷ [];
  },
  ok tt,
)

abbrev pub mark_published : ℕ → OutboxRow → OutboxRow
mark_published seq r = if r.seq == seq then record r { published = true } else r

-- `ORDER BY seq`
unfoldable pub insert_by_seq : OutboxRow → List OutboxRow → List OutboxRow
insert_by_seq r [] = r ∷ []
insert_by_seq r (x ∷ xs) = if leb r.seq x.seq then r ∷ x ∷ xs else x ∷ insert_by_seq r xs

unfoldable pub sort_by_seq : List OutboxRow → List OutboxRow
unfolding insert_by_seq
sort_by_seq [] = []
sort_by_seq (r ∷ rs) = insert_by_seq r (sort_by_seq rs)

unfoldable pub pending : Journal → List OutboxRow
unfolding sort_by_seq
pending j = sort_by_seq (select (λ r. not r.published) j.outbox)

module _ {T : Type 0} (publish : String → String → Method T JournalError (Unit {0})) where
  -- The loop over the rows that were pending, with the number published so far.
  unfoldable pub drain_rows :
      List OutboxRow → ℕ → T × Journal → (T × Journal) × Result JournalError ℕ
  drain_rows [] published (t, j) = ((t, j), ok published)
  drain_rows (r ∷ rs) published (t, j) =
      let (t', reply) = publish r.kind r.payload t in
      let j' : Journal = record j { outbox = map (mark_published r.seq) j.outbox } in
      let rest = drain_rows rs (published + 1) (t', j') in
      elim reply [ ok _ ↦ rest | err e ↦ ((t', j), err e) ]

  unfoldable pub outbox_drain : T × Journal → (T × Journal) × Result JournalError ℕ
  unfolding drain_rows pending
  outbox_drain (t, j) = drain_rows (pending j) 0 (t, j)
