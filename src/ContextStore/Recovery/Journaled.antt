-- ===== src/ContextStore/Recovery/Journaled.antt =====
-- The journal of crates/context-store/src/local.rs against the memory it stands for.
use dds_llm_orchestrator.Base.{
  ℕ, ◌+◌, ◌≡◌, refl, ap, ◌∙◌, String, false, none, some, Option-cases, ok, err, List, [], ◌∷◌, ◌++◌,
  inl, inr, Bool-cases,
}
use dds_llm_orchestrator.Base.Dict.{Dict, lookup, remove}
use dds_llm_orchestrator.ContextStore.Entries.{Serde, ContextEntry, expires_from_now}
use dds_llm_orchestrator.ContextStore.Store.{
  File, Fate, written, lost, whole, torn, append_to, JournalRecord, put, update, expire, Journal,
  LocalContextStore, Written, step_of, ttl_of, count_if_ok, replay_record, replay_line, replay,
  open_file, journal_append, put_snapshot, apply_update, expire_all, expire_ttl, expired, Call,
  call_put, call_update, call_expire, step, run,
}
use dds_llm_orchestrator.ContextStore.Recovery.{forget_all, replay_record-forget}

-- The store has a file of whole lines that replays to its entries, but for creation times, and to its
-- count.
abbrev pub IsRecovered :
    {Line : Type 0} → Serde → Journal Line → (ℕ → ℕ) → LocalContextStore Line → Type 0
IsRecovered {Line = Line} serde j clock s =
    (lines : List Line) × (s.journal ≡ some (record { lines = lines; tail = none }))
    × (forget_all (replay serde j clock lines ([], 0)).0 ≡ forget_all s.entries)
    × ((replay serde j clock lines ([], 0)).1 ≡ s.journaled_ops)

-- A line is written, or an error leaves none of its bytes.
abbrev pub IsWhole : {Line : Type 0} → Fate Line → Type 0
IsWhole written = Unit
IsWhole lost = Unit
IsWhole whole = ⊥
IsWhole (torn part) = ⊥

-- Every call finds a file that takes a line or leaves none of it.
abbrev pub AllWhole : {Line : Type 0} → List (Call × ℕ × (Line → Fate Line)) → Type 0
AllWhole [] = Unit
AllWhole {Line = Line} ((c, now, disk) ∷ cs) = ((l : Line) → IsWhole (disk l)) × AllWhole cs

-- A printed record reads as itself and is no blank line.
abbrev pub Reads : {Line : Type 0} → Journal Line → Type 0
Reads j = (r : JournalRecord) → (j.parse (j.print r) ≡ some r) × (j.is_blank (j.print r) ≡ false)

module _ {Line : Type 0} (serde : Serde) (j : Journal Line) (clock : ℕ → ℕ) (reads : Reads j) where
  replay-append :
      (lines : List Line) (l : Line) (st : Dict ContextEntry × ℕ)
      → replay serde j clock (lines ++ (l ∷ [])) st
        ≡ replay_line serde j clock l (replay serde j clock lines st)
  unfolding replay
  replay-append [] l st = refl
  replay-append (k ∷ lines) l st = replay-append lines l (replay_line serde j clock k st)

  replay_line-print :
      (r : JournalRecord) (m : Dict ContextEntry) (n : ℕ)
      → replay_line serde j clock (j.print r) (m, n) ≡ (replay_record serde (clock n) r m, n + 1)
  unfolding replay_line
  replay_line-print r m n = rw ((reads r).1, (reads r).0, replay_line) refl

  record_lem :
      (now : ℕ) (r : JournalRecord) (s : LocalContextStore Line) (m : Dict ContextEntry)
      (h : IsRecovered serde j clock s)
      → forget_all (replay_record serde now r s.entries) ≡ forget_all m
      → IsRecovered serde j clock (record {
        entries = m;
        journal = some (record { lines = h.0 ++ (j.print r ∷ []); tail = none });
        journaled_ops = s.journaled_ops + 1;
      })
  record_lem now r s m (lines, q, e, n) k =
      let before = replay serde j clock lines ([], 0) in
      let after = replay-append lines (j.print r) ([], 0) ∙ replay_line-print r before.0 before.1 in
      (
        lines ++ (j.print r ∷ []),
        refl,
        ap (λ st. forget_all st.0) after
            ∙ replay_record-forget serde (clock before.1) now r before.0 s.entries e
            ∙ k,
        ap (λ st. st.1) after ∙ ap (λ i. i + 1) n,
      )

  append_to-IsRecovered :
      (r : JournalRecord) (fate : Fate Line) (s : LocalContextStore Line)
      (next : LocalContextStore Line → Written Line) (h : IsRecovered serde j clock s)
      → IsWhole fate
      → IsRecovered serde j clock
          (next (record s {
            journal = some (record { lines = h.0 ++ (j.print r ∷ []); tail = none });
            journaled_ops = s.journaled_ops + 1;
          })).0
      → IsRecovered serde j clock
          (step_of (append_to j fate (j.print r) (record { lines = h.0; tail = none }) s) next).0
  append_to-IsRecovered r written s next h w k = k
  append_to-IsRecovered r lost s next h w k = h
  append_to-IsRecovered r whole s next h w k = absurd w
  append_to-IsRecovered r (torn part) s next h w k = absurd w

  step_of_lem :
      (r : JournalRecord) (disk : Line → Fate Line) (s : LocalContextStore Line)
      (next : LocalContextStore Line → Written Line) (h : IsRecovered serde j clock s)
      → IsWhole (disk (j.print r))
      → IsRecovered serde j clock
          (next (record s {
            journal = some (record { lines = h.0 ++ (j.print r ∷ []); tail = none });
            journaled_ops = s.journaled_ops + 1;
          })).0
      → IsRecovered serde j clock (step_of (journal_append j disk (j.print r) s) next).0
  unfolding journal_append
  step_of_lem r disk s next h w k =
      rw (h.1, journal_append) (append_to-IsRecovered r (disk (j.print r)) s next h w k)

  shut :
      (id : String) (s : LocalContextStore Line)
      → forget_all (replay_record serde 0 (expire id) s.entries) ≡ forget_all (remove id s.entries)
  unfolding replay_record
  shut id s = refl

  expire_all-IsRecovered :
      (disk : Line → Fate Line) (ids : List String) (s : LocalContextStore Line)
      → ((l : Line) → IsWhole (disk l))
      → IsRecovered serde j clock s
      → IsRecovered serde j clock (expire_all j disk ids s).0
  unfolding expire_all
  expire_all-IsRecovered disk [] s w h = h
  expire_all-IsRecovered disk (id ∷ ids) s w h = step_of_lem (expire id) disk s _ h (w _) (
      expire_all-IsRecovered disk ids _ w
        (record_lem 0 (expire id) s (remove id s.entries) h (shut id s)))

  count_if_ok-IsRecovered :
      (n : ℕ) (w : Written Line)
      → IsRecovered serde j clock w.0
      → IsRecovered serde j clock (count_if_ok n w).0
  count_if_ok-IsRecovered n (s, ok tt) h = h
  count_if_ok-IsRecovered n (s, err e) h = h

  pub step-IsRecovered :
      (c : Call × ℕ × (Line → Fate Line)) (s : LocalContextStore Line)
      → ((l : Line) → IsWhole (c.2 l))
      → IsRecovered serde j clock s
      → IsRecovered serde j clock (step serde j c s)
  unfolding step replay_record put_snapshot apply_update expire_ttl
  step-IsRecovered (call_put x, now, disk) s w h =
      let expires = expires_from_now now x.ttl_seconds in
      step_of_lem (put x expires) disk s _ h (w _) (record_lem now (put x expires) s _ h refl)
  step-IsRecovered (call_update u created, now, disk) s w h =
      let expires = expires_from_now now (ttl_of (lookup u.context_id s.entries)) in
      step_of_lem (update u expires) disk s _ h (w _)
        (record_lem created (update u expires) s _ h refl)
  step-IsRecovered (call_expire, now, disk) s w h =
      count_if_ok-IsRecovered _ _ (expire_all-IsRecovered disk (expired now s.entries) s w h)

  pub run-IsRecovered :
      (cs : List (Call × ℕ × (Line → Fate Line))) (s : LocalContextStore Line)
      → AllWhole cs
      → IsRecovered serde j clock s
      → IsRecovered serde j clock (run serde j cs s)
  unfolding run
  run-IsRecovered [] s w h = h
  run-IsRecovered ((c, now, disk) ∷ cs) s w h =
      run-IsRecovered cs _ w.1 (step-IsRecovered (c, now, disk) s w.0 h)

abbrev IsAlike : Dict ContextEntry × ℕ → Dict ContextEntry × ℕ → Type 0
IsAlike st st' = (forget_all st.0 ≡ forget_all st'.0) × (st.1 ≡ st'.1)

replay_line-IsAlike :
    {Line : Type 0} (serde : Serde) (j : Journal Line) (clock later : ℕ → ℕ) (line : Line)
    (st st' : Dict ContextEntry × ℕ)
    → IsAlike st st'
    → IsAlike (replay_line serde j clock line st) (replay_line serde j later line st')
unfolding replay_line
replay_line-IsAlike serde j clock later line st st' h = elim (Bool-cases (j.is_blank line)) [
  | inl y ↦ rw (y, replay_line) h
  | inr n ↦ elim (Option-cases (j.parse line)) [
    | inl q ↦ rw (n, q, replay_line) h
    | inr (r, q) ↦
        rw (n, q, replay_line)
          (
            replay_record-forget serde (clock st.1) (later st'.1) r st.0 st'.0 h.0,
            ap (λ i. i + 1) h.1,
          )
  ]
]

replay-IsAlike :
    {Line : Type 0} (serde : Serde) (j : Journal Line) (clock later : ℕ → ℕ) (lines : List Line)
    (st st' : Dict ContextEntry × ℕ)
    → IsAlike st st'
    → IsAlike (replay serde j clock lines st) (replay serde j later lines st')
unfolding replay
replay-IsAlike serde j clock later [] st st' h = h
replay-IsAlike serde j clock later (line ∷ lines) st st' h =
    replay-IsAlike serde j clock later lines _ _
      (replay_line-IsAlike serde j clock later line st st' h)

-- Reopening recovers the store: open a file of any whole lines, make any calls at any times, and open
-- what the file then holds, at any later times. Where a line that the file does not take leaves none
-- of its bytes, and a printed record reads as itself and is no blank line, the entries are those of
-- the store that wrote them, but for creation times, and so is the count of records.
pub open_file-run :
    {Line : Type 0} (serde : Serde) (j : Journal Line) (clock later : ℕ → ℕ) (lines : List Line)
    (cs : List (Call × ℕ × (Line → Fate Line)))
    → Reads j
    → AllWhole cs
    → let s = run serde j cs (open_file serde j clock (record { lines = lines; tail = none })) in
      (f : File Line) × (s.journal ≡ some f)
      × (forget_all (open_file serde j later f).entries ≡ forget_all s.entries)
      × ((open_file serde j later f).journaled_ops ≡ s.journaled_ops)
unfolding open_file
open_file-run serde j clock later lines cs reads w =
    let (alike, count) = replay-IsAlike serde j later clock lines ([], 0) ([], 0) (refl, refl) in
    let (lines', at, entries, ops) =
      run-IsRecovered serde j later reads cs _ w (lines, refl, alike, count) in
    (record { lines = lines'; tail = none }, at, entries, ops)
