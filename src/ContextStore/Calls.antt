-- ===== src/ContextStore/Calls.antt =====
-- Reading after the calls of crates/context-store/src/local.rs that write.
use dds_llm_orchestrator.Base.{
  ℕ, zero, suc, ℤ, pos, negsuc, List, subst, sym, ◌≢◌, ◌≡◌, ◌⊎◌, refl, ap, ◌∙◌, String, Option,
  none, some, Option-cases, Result, ok, err, [], ◌∷◌, str_eq, if◌then◌else◌, ◌++◌, inl, inr, arith,
}
use dds_llm_orchestrator.Base.Dict.{Dict, lookup, insert, lookup-insert}
use dds_llm_orchestrator.Policy.Json.{
  Value, Items, nil, cons, array, null, bool, number, string, object,
}
use dds_llm_orchestrator.ContextStore.Entries.{
  ContextSnapshot, ContextUpdate, StoreError, io, Serde, ContextEntry, upsert_entry,
  apply_update_entry, append_delta, as_array, json, extend, apply_messages_delta,
  snapshot_from_update, write_update, expires_from_now,
}
use dds_llm_orchestrator.ContextStore.Store.{
  File, Fate, written, lost, whole, torn, append_to, put, update, Journal, LocalContextStore,
  ttl_of, journal_append, put_snapshot, apply_update, get, snapshot_in,
}

-- A snapshot that is written over this one.
abbrev pub kept : Option ContextSnapshot → ContextSnapshot → ContextSnapshot
kept none s = s
kept (some old) s = record s {
  context_id = old.context_id;
  client_id = old.client_id;
  session_id = old.session_id;
  created_at_ns = old.created_at_ns;
}

snapshot_in-insert :
    (k id : String) (e : ContextEntry) (m : Dict ContextEntry)
    → snapshot_in (lookup id (insert k e m))
      ≡ (if str_eq k id then some e.snapshot else snapshot_in (lookup id m))
snapshot_in-insert k id e m = ground (arith, lookup-insert k id e m)

upsert_entry-lookup :
    (x : ContextSnapshot) (n : ℕ) (id : String) (m : Dict ContextEntry)
    → snapshot_in (lookup id (upsert_entry x n m)) ≡ (
        if str_eq x.context_id id
        then some (kept (snapshot_in (lookup x.context_id m)) x)
        else snapshot_in (lookup id m))
unfolding upsert_entry
upsert_entry-lookup x n id m = elim (Option-cases (lookup x.context_id m)) [
  | inl q ↦ rw (q, upsert_entry) (snapshot_in-insert x.context_id id _ m)
  | inr (e, q) ↦ rw (q, upsert_entry) (snapshot_in-insert x.context_id id _ m)
]

-- The store has a file, which did not take the line, and its entries stand.
abbrev pub Refused :
    {Line : Type 0}
    → (Line → Fate Line)
    → Line
    → LocalContextStore Line
    → LocalContextStore Line
    → Type 0
Refused {Line = Line} disk line s s' =
    (f : File Line) × (s.journal ≡ some f) × (disk line ≢ written) × (s'.entries ≡ s.entries)

-- What the file did with a line.
append_to-cases :
    {Line : Type 0} (j : Journal Line) (disk : Line → Fate Line) (line : Line) (f : File Line)
    (s : LocalContextStore Line) (fate : Fate Line)
    → s.journal ≡ some f
    → disk line ≡ fate
    → ((s' : LocalContextStore Line) × (s'.entries ≡ s.entries)
        × (append_to j fate line f s ≡ (s', ok tt)))
      ⊎ ((s' : LocalContextStore Line) × Refused disk line s s'
          × (append_to j fate line f s ≡ (s', err io)))
append_to-cases j disk line f s written q e = inl (_, refl, refl)
append_to-cases j disk line f s lost q e = inr (_, (f, q, λ w. ground (arith, e, w), refl), refl)
append_to-cases j disk line f s whole q e = inr (_, (f, q, λ w. ground (arith, e, w), refl), refl)
append_to-cases j disk line f s (torn part) q e =
    inr (_, (f, q, λ w. ground (arith, e, w), refl), refl)

journal_append-file :
    {Line : Type 0} (j : Journal Line) (disk : Line → Fate Line) (line : Line) (f : File Line)
    (s : LocalContextStore Line)
    → s.journal ≡ some f
    → journal_append j disk line s ≡ append_to j (disk line) line f s
unfolding journal_append
journal_append-file j disk line f s q =
    ap (λ o. elim o [ none ↦ (s, ok tt) | some f ↦ append_to j (disk line) line f s ]) q

journal_append-cases :
    {Line : Type 0} (j : Journal Line) (disk : Line → Fate Line) (line : Line)
    (s : LocalContextStore Line)
    → ((s' : LocalContextStore Line) × (s'.entries ≡ s.entries)
        × (journal_append j disk line s ≡ (s', ok tt)))
      ⊎ ((s' : LocalContextStore Line) × Refused disk line s s'
          × (journal_append j disk line s ≡ (s', err io)))
unfolding journal_append
journal_append-cases {Line = Line} j disk line s = elim (Option-cases s.journal) [
  | inl q ↦ inl (s, refl, ground arith)
  | inr (f, q) ↦
      subst
        (λ w.
          ((s' : LocalContextStore Line) × (s'.entries ≡ s.entries) × (w ≡ (s', ok tt)))
          ⊎ ((s' : LocalContextStore Line) × Refused disk line s s' × (w ≡ (s', err io))))
        (sym (journal_append-file j disk line f s q))
        (append_to-cases j disk line f s (disk line) q refl)
]

-- A snapshot that the store took: a reader of its context finds the identities and the creation
-- time of the snapshot that was there first, and all else as it was put; other contexts are as they
-- were. A put fails only where the store has a file that did not take the line, and then it changes
-- no entry.
pub put_snapshot-get :
    {Line : Type 0} (j : Journal Line) (now : ℕ) (disk : Line → Fate Line) (x : ContextSnapshot)
    (id : String) (s : LocalContextStore Line)
    → let (s', r) = put_snapshot j now disk x s in
      ((r ≡ ok tt)
        × (get id s'
            ≡ (if str_eq x.context_id id then some (kept (get x.context_id s) x) else get id s)))
      ⊎ ((r ≡ err io) × Refused disk (j.print (put x (expires_from_now now x.ttl_seconds))) s s')
unfolding put_snapshot get
put_snapshot-get j now disk x id s =
    elim (journal_append-cases j disk (j.print (put x (expires_from_now now x.ttl_seconds))) s) [
      | inl (s', same, q) ↦
          rw (q, put_snapshot)
            (inl (
              refl,
              ap
                    (λ m.
                      snapshot_in
                        (lookup id (upsert_entry x (expires_from_now now x.ttl_seconds) m)))
                    same
                  ∙ upsert_entry-lookup x _ id s.entries,
            ))
      | inr (s', refused, q) ↦ rw (q, put_snapshot) (inr (refl, refused))
    ]

-- The snapshot that an update is applied to.
abbrev pub found : Option ContextSnapshot → ContextUpdate → ℕ → ContextSnapshot
found none u now = snapshot_from_update u now
found (some old) u now = old

apply_update_entry-found :
    (serde : Serde) (now : ℕ) (u : ContextUpdate) (x : ℕ) (m : Dict ContextEntry)
    → let old = found (snapshot_in (lookup u.context_id m)) u now in
      apply_update_entry serde now u x m
      ≡ write_update u x old m (apply_messages_delta serde u.context_id old.messages_json u)
unfolding apply_update_entry snapshot_from_update
apply_update_entry-found serde now u x m = elim (Option-cases (lookup u.context_id m)) [
  | inl q ↦ rw (q, apply_update_entry) refl
  | inr (e, q) ↦ rw (q, apply_update_entry) refl
]

abbrev pub values : Items → List Value
values nil = []
values (cons v vs) = v ∷ values vs

values-extend : (vs ws : Items) → values (extend vs ws) ≡ values vs ++ values ws
unfolding extend
values-extend nil ws = refl
values-extend (cons v vs) ws = ap (λ l. v ∷ l) (values-extend vs ws)

-- The two texts are arrays.
abbrev pub AreArrays : Serde → String → String → Type 0
AreArrays serde a b =
    (vs : Items) × (ws : Items) × (serde.from_str a ≡ some (array vs))
    × (serde.from_str b ≡ some (array ws))

-- What each type of update makes of the messages that the context had: type 0 appends the values of
-- the delta, type 1 replaces them by its text, type 2 clears them, and any other leaves them.
pub data Makes (serde : Serde) (u : ContextUpdate) (old : String) : String → Type 0 where
  appends :
      (vs ws zs : Items)
      → u.update_type ≡ pos 0
      → serde.from_str old ≡ some (array vs)
      → serde.from_str u.messages_delta_json ≡ some (array ws)
      → values zs ≡ values vs ++ values ws
      → Makes serde u old (serde.to_string (array zs))
  replaces : u.update_type ≡ pos 1 → Makes serde u old u.messages_delta_json
  clears : u.update_type ≡ pos 2 → Makes serde u old "[]"
  leaves :
      u.update_type ≢ pos 0 → u.update_type ≢ pos 1 → u.update_type ≢ pos 2 → Makes serde u old old

-- The delta is to be appended, and the messages or the delta are no array.
abbrev pub Unreadable : Serde → ContextUpdate → String → Type 0
Unreadable serde u old = (u.update_type ≡ pos 0) × ¬ (AreArrays serde old u.messages_delta_json)

-- What the outcome of a delta says.
abbrev Explained : Serde → ContextUpdate → String → Result StoreError String → Type 0
Explained serde u old (ok messages) = Makes serde u old messages
Explained serde u old (err e) = Unreadable serde u old

as_outcome :
    (serde : Serde) (u : ContextUpdate) (old : String) (x y : Result StoreError String)
    → x ≡ y
    → Explained serde u old y
    → Explained serde u old x
as_outcome serde u old x y q h = subst (Explained serde u old) (sym q) h

as_array-cases :
    (id field : String) (v : Value)
    → ((vs : Items) × (v ≡ array vs) × (as_array id field v ≡ ok vs))
      ⊎ (((vs : Items) → ¬ (v ≡ array vs)) × (e : StoreError) × (as_array id field v ≡ err e))
as_array-cases id field (array vs) = inl (vs, refl, refl)
as_array-cases id field null = inr ((λ vs h. ground (arith, h)), _, refl)
as_array-cases id field (bool b) = inr ((λ vs h. ground (arith, h)), _, refl)
as_array-cases id field (number n) = inr ((λ vs h. ground (arith, h)), _, refl)
as_array-cases id field (string s) = inr ((λ vs h. ground (arith, h)), _, refl)
as_array-cases id field (object fs) = inr ((λ vs h. ground (arith, h)), _, refl)

some-inj : (v w : Value) → some v ≡ some w → v ≡ w
some-inj v w h = ap (λ o. elim o [ none ↦ v | some x ↦ x ]) h

none-some : (v : Value) → ¬ (none ≡ some v)
none-some v h = ground (arith, h)

module _ (serde : Serde) (id old : String) (u : ContextUpdate) (h : u.update_type ≡ pos 0) where
  failed :
      (e : StoreError)
      → append_delta serde id old u.messages_delta_json ≡ err e
      → ¬ (AreArrays serde old u.messages_delta_json)
      → Explained serde u old (append_delta serde id old u.messages_delta_json)
  failed e q not_arrays = subst (Explained serde u old) (sym q) (h, not_arrays)

  append_delta-Explained : Explained serde u old (append_delta serde id old u.messages_delta_json)
  unfolding append_delta
  append_delta-Explained = elim (Option-cases (serde.from_str old)) [
    | inl a ↦ failed json (rw (a, append_delta) refl) (λ (vs, ws, p, q). none-some _ (sym a ∙ p))
    | inr (v, a) ↦ elim (Option-cases (serde.from_str u.messages_delta_json)) [
      | inl b ↦
          failed json (rw (a, b, append_delta) refl) (λ (vs, ws, p, q). none-some _ (sym b ∙ q))
      | inr (w, b) ↦ elim (as_array-cases id "messages_json" v) [
        | inr (other, e, c) ↦
            failed e (rw (a, b, append_delta, c) refl)
              (λ (vs, ws, p, q). other vs (some-inj _ _ (sym a ∙ p)))
        | inl (vs, c, c') ↦ elim (as_array-cases id "messages_delta_json" w) [
          | inr (other, e, d) ↦
              failed e (rw (a, b, append_delta, c', d) refl)
                (λ (vs, ws, p, q). other ws (some-inj _ _ (sym b ∙ q)))
          | inl (ws, d, d') ↦
              as_outcome serde u old _ (ok (serde.to_string (array (extend vs ws))))
                (rw (a, b, append_delta, c', d') refl)
                (Makes.appends vs ws (extend vs ws) h (a ∙ ap some c) (b ∙ ap some d)
                  (values-extend vs ws))
        ]
      ]
    ]
  ]

type-Explained :
    (z : ℤ) (serde : Serde) (id old : String) (u : ContextUpdate)
    → u.update_type ≡ z
    → Explained serde u old (apply_messages_delta serde id old u)
unfolding apply_messages_delta
type-Explained (pos zero) serde id old u h =
    as_outcome serde u old _ (append_delta serde id old u.messages_delta_json) (ground (arith, h))
      (append_delta-Explained serde id old u h)
type-Explained (pos (suc zero)) serde id old u h =
    as_outcome serde u old _ (ok u.messages_delta_json) (ground (arith, h)) (Makes.replaces h)
type-Explained (pos (suc (suc zero))) serde id old u h =
    as_outcome serde u old _ (ok "[]") (ground (arith, h)) (Makes.clears h)
type-Explained (pos (suc (suc (suc n)))) serde id old u h =
    as_outcome serde u old _ (ok old) (ground (arith, h)) (
      Makes.leaves (λ e. ground (arith, h, e)) (λ e. ground (arith, h, e))
        (λ e. ground (arith, h, e)))
type-Explained (negsuc n) serde id old u h = as_outcome serde u old _ (ok old) (ground (arith, h)) (
    Makes.leaves (λ e. ground (arith, h, e)) (λ e. ground (arith, h, e))
      (λ e. ground (arith, h, e)))

-- How an update ends, with the line of it. An error leaves every entry as it was.
abbrev pub IsUpdated :
    {Line : Type 0}
    → Serde
    → (Line → Fate Line)
    → Line
    → ContextUpdate
    → ContextSnapshot
    → String
    → LocalContextStore Line
    → LocalContextStore Line
    → Result StoreError (Unit {0})
    → Type 0
IsUpdated serde disk line u old id s s' r =
    ((r ≡ ok tt)
      × ((messages : String) × Makes serde u old.messages_json messages
          × (get id s' ≡ (
              if str_eq u.context_id id
              then some (record old { messages_json = messages; updated_at_ns = u.updated_at_ns })
              else get id s))))
    ⊎ ((e : StoreError) × (r ≡ err e)
        × (((s'.entries ≡ s.entries) × Unreadable serde u old.messages_json)
            ⊎ ((e ≡ io) × Refused disk line s s')))

write_update-IsUpdated :
    {Line : Type 0} (serde : Serde) (disk : Line → Fate Line) (line : Line) (u : ContextUpdate)
    (x : ℕ) (old : ContextSnapshot) (id : String) (s s' : LocalContextStore Line)
    (o : Result StoreError String)
    → s'.entries ≡ s.entries
    → Explained serde u old.messages_json o
    → let (m, r) = write_update u x old s'.entries o in
      IsUpdated serde disk line u old id s (record s' { entries = m }) r
unfolding get
write_update-IsUpdated serde disk line u x old id s s' (ok messages) same makes = inl (
  refl,
  (
    messages,
    makes,
    snapshot_in-insert u.context_id id _ s'.entries
        ∙ ap
            (λ (m : Dict ContextEntry).
              if str_eq u.context_id id
              then some (record old { messages_json = messages; updated_at_ns = u.updated_at_ns })
              else snapshot_in (lookup id m))
            same,
  ),
)
write_update-IsUpdated serde disk line u x old id s s' (err e) same why =
    inr (e, refl, inl (same, why))

-- An update leaves the messages that its type makes of those the context had, or of an empty list
-- in a fresh context: the values of the delta appended, its text, an empty list, or the same; all
-- else of that snapshot and every other context are as they were. It fails only where the store has
-- a file that did not take the line, or where the delta is to be appended and it or the messages are
-- no array, and then it changes no entry.
pub apply_update-IsUpdated :
    {Line : Type 0} (serde : Serde) (j : Journal Line) (now created : ℕ) (disk : Line → Fate Line)
    (u : ContextUpdate) (id : String) (s : LocalContextStore Line)
    → let (s', r) = apply_update serde j now created disk u s in
      IsUpdated serde disk
        (j.print (update u (expires_from_now now (ttl_of (lookup u.context_id s.entries)))))
        u
        (found (get u.context_id s) u created)
        id
        s
        s'
        r
unfolding apply_update get
apply_update-IsUpdated serde j now created disk u id s =
    let x = expires_from_now now (ttl_of (lookup u.context_id s.entries)) in
    let old = found (get u.context_id s) u created in
    elim (journal_append-cases j disk (j.print (update u x)) s) [
      | inl (s', same, q) ↦
          rw
            (
              q,
              apply_update,
              apply_update_entry-found serde created u x s'.entries,
              ap (λ m. lookup u.context_id m) same,
            )
            (write_update-IsUpdated serde disk (j.print (update u x)) u x old id s s' _ same
              (type-Explained u.update_type serde u.context_id old.messages_json u refl))
      | inr (s', refused, q) ↦ rw (q, apply_update) (inr (io, refl, inr (refl, refused)))
    ]
