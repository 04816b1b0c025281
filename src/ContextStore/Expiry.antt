-- ===== src/ContextStore/Expiry.antt =====
-- The sweep of crates/context-store/src/local.rs.
use dds_llm_orchestrator.Base.{
  ℕ, ◌+◌, ◌≡◌, refl, ap, ◌∙◌, String, false, none, some, Option-cases, ok, err, List, [], ◌∷◌,
  if◌then◌else◌, inl, inr, arith, leb, length,
}
use dds_llm_orchestrator.Base.Dict.{
  Dict, lookup, remove, retain, mem, mem-keys, Distinct, lookup-remove, lookup-retain, length-keys,
}
use dds_llm_orchestrator.ContextStore.Entries.{ContextEntry}
use dds_llm_orchestrator.ContextStore.Store.{
  Fate, written, push_line, expire, Journal, LocalContextStore, Written, count_if_ok,
  journal_append, expire_all, expire_ttl, expired,
}

journal_append-taken :
    {Line : Type 0} (j : Journal Line) (disk : Line → Fate Line) (line : Line)
    (s : LocalContextStore Line)
    → disk line ≡ written
    → (s' : LocalContextStore Line) × (s'.entries ≡ s.entries)
      × (journal_append j disk line s ≡ (s', ok tt))
unfolding journal_append
journal_append-taken j disk line s y = elim (Option-cases s.journal) [
  | inl q ↦ (s, refl, ground arith)
  | inr (f, q) ↦ (
    record s { journal = some (push_line j line f); journaled_ops = s.journaled_ops + 1 },
    refl,
    rw (q, y, journal_append) refl,
  )
]

expire_all-lookup :
    {Line : Type 0} (j : Journal Line) (disk : Line → Fate Line) (ids : List String) (id : String)
    (s : LocalContextStore Line)
    → ((line : Line) → disk line ≡ written)
    → let (s', r) = expire_all j disk ids s in
      (r ≡ ok tt) × (lookup id s'.entries ≡ (if mem id ids then none else lookup id s.entries))
unfolding expire_all mem
expire_all-lookup j disk [] id s h = (refl, refl)
expire_all-lookup j disk (i ∷ ids) id s h =
    let (s', same, q) = journal_append-taken j disk (j.print (expire i)) s (h _) in
    let rest = expire_all-lookup j disk ids id (record s' { entries = remove i s'.entries }) h in
    rw (q, expire_all)
      (rest.0, rest.1 ∙ ground (arith, lookup-remove i id s'.entries, ap (λ m. lookup id m) same))

expired-mem :
    (now : ℕ) (id : String) (m : Dict ContextEntry)
    → Distinct m
    → mem id (expired now m)
      ≡ (elim (lookup id m) [ none ↦ false | some e ↦ leb e.expires_at_ns now ])
unfolding expired
expired-mem now id m d = ground (
  arith,
  mem-keys id (retain (λ id e. leb e.expires_at_ns now) m),
  lookup-retain (λ id e. leb e.expires_at_ns now) id m d,
)

count_if_ok-ok :
    {Line : Type 0} (n : ℕ) (w : Written Line) → w.1 ≡ ok tt → count_if_ok n w ≡ (w.0, ok n)
count_if_ok-ok n (s, ok tt) h = refl
count_if_ok-ok n (s, err e) h = ground arith

-- With a file that takes every line, a sweep removes exactly the contexts whose time has come, the
-- one of this very instant among them, and answers how many there were.
pub expire_ttl-lookup :
    {Line : Type 0} (j : Journal Line) (now : ℕ) (disk : Line → Fate Line) (id : String)
    (s : LocalContextStore Line)
    → ((line : Line) → disk line ≡ written)
    → Distinct s.entries
    → let (s', r) = expire_ttl j now disk s in
      (r ≡ ok (length (retain (λ id e. leb e.expires_at_ns now) s.entries)))
      × (lookup id s'.entries ≡ (elim (lookup id s.entries) [
        | none ↦ none
        | some e ↦ if leb e.expires_at_ns now then none else some e
      ]))
unfolding expire_ttl
expire_ttl-lookup j now disk id s h d =
    let (r, found) = expire_all-lookup j disk (expired now s.entries) id s h in
    rw
      (
        count_if_ok-ok (length (expired now s.entries))
            (expire_all j disk (expired now s.entries) s) r,
        expire_ttl,
      )
      (
        ap ok (length-keys (retain (λ id e. leb e.expires_at_ns now) s.entries)),
        found ∙ ground (arith, expired-mem now id s.entries d),
      )
