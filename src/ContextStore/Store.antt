-- ===== src/ContextStore/Store.antt =====
-- The store with its write-ahead journal, one record to a line: crates/context-store/src/local.rs.
-- How a record is written on a line and read from it is serde's and a parameter, as is what becomes of
-- the bytes of a line.
use dds_llm_orchestrator.Base.{
  ℕ, ◌+◌, String, Bool, Option, none, some, Result, ok, err, List, [], ◌∷◌, leb, if◌then◌else◌,
  length, ◌++◌,
}
use dds_llm_orchestrator.Base.Dict.{Dict, lookup, remove, retain, keys}
use dds_llm_orchestrator.ContextStore.Entries.{
  ContextSnapshot, ContextUpdate, StoreError, io, Serde, ContextEntry, upsert_entry,
  apply_update_entry, expires_from_now, default_ttl_seconds,
}

pub data JournalRecord : Type 0 where
  put : ContextSnapshot → ℕ → JournalRecord
  update : ContextUpdate → ℕ → JournalRecord
  expire : String → JournalRecord

-- The lines of the file, of any type that holds a record: how serde writes one, what it reads from
-- one without its outer blanks, and which are then empty. `splice` is a text written after another on
-- one line.
pub record Journal (Line : Type 0) : Type 0 where
  pub print : JournalRecord → Line
  pub parse : Line → Option JournalRecord
  pub is_blank : Line → Bool
  pub splice : Line → Line → Line

-- The whole lines of the file, and what stands after the last line break, if anything.
pub record File (Line : Type 0) : Type 0 where
  pub lines : List Line
  pub tail : Option Line

-- What becomes of a line and its line break that are appended: they are written, or an error leaves
-- none of the bytes, some of the text, or all of it.
pub data Fate (Line : Type 0) : Type 0 where
  written lost whole : Fate Line
  torn : Line → Fate Line

pub record LocalContextStore (Line : Type 0) : Type 0 where
  pub entries : Dict ContextEntry
  pub journal : Option (File Line)
  pub journaled_ops : ℕ

-- The calls that write. An update reads the clock again for the context that it may create.
pub data Call : Type 0 where
  call_put : ContextSnapshot → Call
  call_update : ContextUpdate → ℕ → Call
  call_expire : Call

-- What replaying a record does to the entries.
unfoldable pub replay_record : Serde → ℕ → JournalRecord → Dict ContextEntry → Dict ContextEntry
unfolding upsert_entry apply_update_entry
replay_record serde now (put s expires) m = upsert_entry s expires m
replay_record serde now (update u expires) m = (apply_update_entry serde now u expires m).0
replay_record serde now (expire id) m = remove id m

-- What a method leaves, with its answer.
abbrev pub Written : Type 0 → Type 0
Written Line = LocalContextStore Line × Result StoreError (Unit {0})

abbrev pub ttl_of : Option ContextEntry → ℕ
ttl_of none = default_ttl_seconds
ttl_of (some e) = e.snapshot.ttl_seconds

abbrev pub snapshot_in : Option ContextEntry → Option ContextSnapshot
snapshot_in none = none
snapshot_in (some e) = some e.snapshot

unfoldable pub expired : ℕ → Dict ContextEntry → List String
expired now m = keys (retain (λ id e. leb e.expires_at_ns now) m)

module _ {Line : Type 0} where
  unfoldable pub in_memory : LocalContextStore Line
  in_memory = record { entries = []; journal = none; journaled_ops = 0 }

  -- A corrupt line is passed over. `clock i` is when the i-th record is applied.
  unfoldable pub replay_line :
      Serde → Journal Line → (ℕ → ℕ) → Line → Dict ContextEntry × ℕ → Dict ContextEntry × ℕ
  replay_line serde j clock line (m, applied) =
      if j.is_blank line then (m, applied) else elim (j.parse line) [
        | none ↦ (m, applied)
        | some r ↦ (replay_record serde (clock applied) r m, applied + 1)
      ]

  unfoldable pub replay :
      Serde → Journal Line → (ℕ → ℕ) → List Line → Dict ContextEntry × ℕ → Dict ContextEntry × ℕ
  unfolding replay_line
  replay serde j clock [] s = s
  replay serde j clock (line ∷ lines) s =
      replay serde j clock lines (replay_line serde j clock line s)

  -- `content.lines()`
  abbrev pub all_lines : File Line → List Line
  all_lines f = elim f.tail [ none ↦ f.lines | some l ↦ f.lines ++ (l ∷ []) ]

  -- `open` on a file of this content; a missing file is an empty one.
  unfoldable pub open_file : Serde → Journal Line → (ℕ → ℕ) → File Line → LocalContextStore Line
  unfolding replay
  open_file serde j clock f =
      let (m, applied) = replay serde j clock (all_lines f) ([], 0) in
      record { entries = m; journal = some f; journaled_ops = applied }

  -- A text is written where the file ends.
  abbrev pub joined : Journal Line → File Line → Line → Line
  joined j f line = elim f.tail [ none ↦ line | some l ↦ j.splice l line ]

  abbrev pub push_line : Journal Line → Line → File Line → File Line
  push_line j line f = record { lines = f.lines ++ (joined j f line ∷ []); tail = none }

  -- The method on the file of the store, its answer, and the store it leaves.
  abbrev pub append_to :
      Journal Line → Fate Line → Line → File Line → LocalContextStore Line → Written Line
  append_to j written line f s =
      (record s { journal = some (push_line j line f); journaled_ops = s.journaled_ops + 1 }, ok tt)
  append_to j lost line f s = (s, err io)
  append_to j whole line f s = (record s { journal = some (push_line j line f) }, err io)
  append_to j (torn part) line f s =
      (record s { journal = some (record f { tail = some (joined j f part) }) }, err io)

  unfoldable pub journal_append :
      Journal Line → (Line → Fate Line) → Line → LocalContextStore Line → Written Line
  journal_append j disk line s = elim s.journal [
    | none ↦ (s, ok tt)
    | some f ↦ append_to j (disk line) line f s
  ]

  abbrev pub step_of : Written Line → (LocalContextStore Line → Written Line) → Written Line
  step_of (s, ok tt) next = next s
  step_of (s, err e) next = (s, err e)

  unfoldable pub put_snapshot :
      Journal Line
      → ℕ
      → (Line → Fate Line)
      → ContextSnapshot
      → LocalContextStore Line
      → Written Line
  unfolding journal_append expires_from_now upsert_entry
  put_snapshot j now disk snapshot s =
      let expires = expires_from_now now snapshot.ttl_seconds in
      step_of (journal_append j disk (j.print (put snapshot expires)) s)
        (λ s'. (record s' { entries = upsert_entry snapshot expires s'.entries }, ok tt))

  -- `now` is when the expiry is computed, `created` when the entry is written.
  unfoldable pub apply_update :
      Serde
      → Journal Line
      → ℕ
      → ℕ
      → (Line → Fate Line)
      → ContextUpdate
      → LocalContextStore Line
      → Written Line
  unfolding journal_append expires_from_now apply_update_entry
  apply_update serde j now created disk u s =
      let expires = expires_from_now now (ttl_of (lookup u.context_id s.entries)) in
      step_of (journal_append j disk (j.print (update u expires)) s) (λ s'.
        let (m, r) = apply_update_entry serde created u expires s'.entries in
        (record s' { entries = m }, r))

  unfoldable pub get : String → LocalContextStore Line → Option ContextSnapshot
  get id s = snapshot_in (lookup id s.entries)

  -- The tombstones of these contexts, each before the removal of its own; an error leaves the rest.
  unfoldable pub expire_all :
      Journal Line → (Line → Fate Line) → List String → LocalContextStore Line → Written Line
  unfolding journal_append
  expire_all j disk [] s = (s, ok tt)
  expire_all j disk (id ∷ ids) s =
      step_of (journal_append j disk (j.print (expire id)) s)
        (λ s'. expire_all j disk ids (record s' { entries = remove id s'.entries }))

  abbrev pub count_if_ok : ℕ → Written Line → LocalContextStore Line × Result StoreError ℕ
  count_if_ok n (s, ok tt) = (s, ok n)
  count_if_ok n (s, err e) = (s, err e)

  unfoldable pub expire_ttl :
      Journal Line
      → ℕ
      → (Line → Fate Line)
      → LocalContextStore Line
      → LocalContextStore Line × Result StoreError ℕ
  unfolding expired expire_all
  expire_ttl j now disk s =
      count_if_ok (length (expired now s.entries)) (expire_all j disk (expired now s.entries) s)

  -- A call at a time, with a file that takes these lines.
  unfoldable pub step :
      Serde
      → Journal Line
      → Call × ℕ × (Line → Fate Line)
      → LocalContextStore Line
      → LocalContextStore Line
  unfolding put_snapshot apply_update expire_ttl
  step serde j (call_put snapshot, now, disk) s = (put_snapshot j now disk snapshot s).0
  step serde j (call_update u created, now, disk) s = (apply_update serde j now created disk u s).0
  step serde j (call_expire, now, disk) s = (expire_ttl j now disk s).0

  unfoldable pub run :
      Serde
      → Journal Line
      → List (Call × ℕ × (Line → Fate Line))
      → LocalContextStore Line
      → LocalContextStore Line
  unfolding step
  run serde j [] s = s
  run serde j (c ∷ cs) s = run serde j cs (step serde j c s)
