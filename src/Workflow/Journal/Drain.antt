-- ===== src/Workflow/Journal/Drain.antt =====
-- Drains of the outbox: `outbox_drain` of crates/workflow-engine/src/journal.rs.
use dds_llm_orchestrator.Base.{
  ℕ, ◌+◌, ◌≤◌, ◌<◌, max, String, not, ◌≡◌, Result, ok, err, List, [], ◌∷◌, ◌++◌, select, length,
  All, Method, arith,
}
use dds_llm_orchestrator.Workflow.Journal.Rows.{OutboxRow, Journal, JournalError}
use dds_llm_orchestrator.Workflow.Journal.Outbox.{next_seq, outbox_append, pending}

-- The rows stand in the order of their numbers, as the index of the table keeps them.
unfoldable pub Numbered : List OutboxRow → Type 0
Numbered [] = Unit
Numbered (x ∷ xs) = All (λ r. x.seq < r.seq) xs × Numbered xs

abbrev waiting : List OutboxRow → List OutboxRow
waiting xs = select (λ r. not r.published) xs

below-apart :
    (r x : OutboxRow) (xs : List OutboxRow)
    → x.seq < r.seq
    → All (λ y. x.seq < y.seq) xs
    → All (λ y. x.seq < y.seq) (xs ++ r ∷ [])
below-apart r x [] lt a = (lt, tt)
below-apart r x (y ∷ xs) lt a = (a.0, below-apart r x xs lt a.1)

push-Numbered :
    (xs : List OutboxRow) (r : OutboxRow)
    → Numbered xs
    → All (λ x. x.seq < r.seq) xs
    → Numbered (xs ++ r ∷ [])
unfolding Numbered
push-Numbered [] r d a = (tt, tt)
push-Numbered (x ∷ xs) r d a = (below-apart r x xs a.0 d.0, push-Numbered xs r d.1 a.1)

All-lt : (m n : ℕ) (xs : List OutboxRow) → m ≤ n → All (λ x. x.seq < m) xs → All (λ x. x.seq < n) xs
All-lt m n [] h a = tt
All-lt m n (x ∷ xs) h a = (omega (arith, h, a.0), All-lt m n xs h a.1)

next_seq-lt : (xs : List OutboxRow) → All (λ x. x.seq < next_seq xs) xs
unfolding next_seq
next_seq-lt [] = tt
next_seq-lt (x ∷ xs) = (
  omega arith,
  All-lt (next_seq xs) (max (x.seq + 1) (next_seq xs)) xs (omega arith) (next_seq-lt xs),
)

-- The number of a new row is past the others.
append-Numbered :
    (wf kind payload : String) (j : Journal)
    → Numbered j.outbox
    → Numbered (outbox_append wf kind payload j).0.outbox
unfolding outbox_append
append-Numbered wf kind payload j d = push-Numbered j.outbox _ d (next_seq-lt j.outbox)

-- The transport took these rows one after the other, each with its kind and payload.
abbrev pub Delivers :
    {T : Type 0}
    → (String → String → Method T JournalError (Unit {0}))
    → T
    → List OutboxRow
    → T
    → Type 0
Delivers publish t [] t' = t' ≡ t
Delivers {T = T} publish t (r ∷ rs) t' =
    (u : T) × (publish r.kind r.payload t ≡ (u, ok tt)) × Delivers publish u rs t'

-- How a drain ends after these rows: with their number, or at a row that the transport refused.
abbrev pub Ends :
    {T : Type 0}
    → (String → String → Method T JournalError (Unit {0}))
    → ℕ
    → List OutboxRow
    → List OutboxRow
    → T
    → T
    → Result JournalError ℕ
    → Type 0
Ends publish k sent rest t' last (ok n) = (rest ≡ []) × (n ≡ k + length sent) × (last ≡ t')
Ends publish k sent rest t' last (err e) =
    (r : OutboxRow) × (rs : List OutboxRow) × (rest ≡ r ∷ rs)
    × (publish r.kind r.payload t' ≡ (last, err e))

-- What a drain of rows from a state of the transport leaves and answers.
pub record IsDrained {T : Type 0} (publish : String → String → Method T JournalError (Unit {0}))
    (t : T) (rows : List OutboxRow) (k : ℕ) (x : (T × Journal) × Result JournalError ℕ)
    : Type 0 where
  pub sent : List OutboxRow
  pub rest : List OutboxRow
  pub split : rows ≡ sent ++ rest
  pub after : T
  pub delivered : Delivers publish t sent after
  pub left : pending x.0.1 ≡ rest
  pub ends : Ends publish k sent rest after x.0.0 x.1
