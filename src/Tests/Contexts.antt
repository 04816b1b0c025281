-- ===== src/Tests/Contexts.antt =====
-- Runs of crates/context-store/src/local.rs.
use dds_llm_orchestrator.Base.{
  ℕ, ◌≡◌, ◌⊎◌, refl, pos, false, ok, err, none, some, List, [], ◌∷◌, str_eq, length, leb,
  if◌then◌else◌,
}
use dds_llm_orchestrator.Base.Dict.{lookup, retain}
use dds_llm_orchestrator.Policy.Json.{nil, array}
use dds_llm_orchestrator.ContextStore.Entries.{
  ContextSnapshot, ContextUpdate, Serde, io, expires_from_now,
}
use dds_llm_orchestrator.ContextStore.Store.{
  File, Fate, written, lost, ttl_of, update, JournalRecord, put, Journal, LocalContextStore,
  open_file, put_snapshot, apply_update, expire_ttl, get, Call, call_put, call_update, call_expire,
  run,
}
use dds_llm_orchestrator.ContextStore.Recovery.{forget_all}
use dds_llm_orchestrator.ContextStore.Recovery.Journaled.{open_file-run}
use dds_llm_orchestrator.ContextStore.Calls.{
  kept, found, Refused, IsUpdated, put_snapshot-get, apply_update-IsUpdated,
}
use dds_llm_orchestrator.ContextStore.Expiry.{expire_ttl-lookup}

-- A reader that knows the empty array alone.
abbrev serde : Serde
serde = record {
  from_str = λ s. if str_eq s "[]" then some (array nil) else none;
  to_string = λ v. "[]";
}

abbrev snapshot : ContextSnapshot
snapshot = record {
  context_id = "c1";
  client_id = "u1";
  session_id = "s1";
  messages_json = "[]";
  metadata_json = "{}";
  security_level = pos 0;
  created_at_ns = 5;
  updated_at_ns = 5;
  ttl_seconds = 1;
}

abbrev appended : ContextUpdate
appended = record {
  context_id = "c1";
  update_type = pos 0;
  messages_delta_json = "[]";
  metadata_delta_json = "{}";
  updated_at_ns = 9;
}

-- A file whose lines are the records themselves.
abbrev quiet : Journal JournalRecord
quiet = record { print = λ r. r; parse = λ r. some r; is_blank = λ r. false; splice = λ a b. b }

abbrev held : LocalContextStore JournalRecord
held = record {
  entries = ("c1", record { snapshot = snapshot; expires_at_ns = 1000000005 }) ∷ [];
  journal = none;
  journaled_ops = 0;
}

put_snapshot-get_example :
    let (s', r) = put_snapshot quiet 7 (λ l. written) (record snapshot { client_id = "u2" }) held in
    ((r ≡ ok tt)
      × (get "c1" s' ≡ (
          if str_eq "c1" "c1"
          then some (kept (get "c1" held) (record snapshot { client_id = "u2" }))
          else get "c1" held)))
    ⊎ ((r ≡ err io)
        × Refused
            (λ l. written)
            (quiet.print (put (record snapshot { client_id = "u2" }) (expires_from_now 7 1)))
            held
            s')
put_snapshot-get_example =
    put_snapshot-get quiet 7 (λ l. written) (record snapshot { client_id = "u2" }) "c1" held

apply_update-IsUpdated_example :
    let (s', r) = apply_update serde quiet 7 8 (λ l. written) appended held in
    IsUpdated serde
      (λ l. written)
      (quiet.print (update appended (expires_from_now 7 (ttl_of (lookup "c1" held.entries)))))
      appended
      (found (get "c1" held) appended 8)
      "c1"
      held
      s'
      r
apply_update-IsUpdated_example =
    apply_update-IsUpdated serde quiet 7 8 (λ l. written) appended "c1" held

expire_ttl-lookup_example :
    let (s', r) = expire_ttl quiet 1000000005 (λ l. written) held in
    (r ≡ ok (length (retain (λ id e. leb e.expires_at_ns 1000000005) held.entries)))
    × (lookup "c1" s'.entries ≡ (elim (lookup "c1" held.entries) [
      | none ↦ none
      | some e ↦ if leb e.expires_at_ns 1000000005 then none else some e
    ]))
unfolding lookup
expire_ttl-lookup_example =
    expire_ttl-lookup quiet 1000000005 (λ l. written) "c1" held (λ l. refl) (refl, tt)

-- The second call finds the disk full.
abbrev calls : List (Call × ℕ × (JournalRecord → Fate JournalRecord))
calls =
    (call_put snapshot, 6, λ l. written)
    ∷ (call_put (record snapshot { context_id = "c2" }), 7, λ l. lost)
    ∷ (call_update appended 9, 8, λ l. written)
    ∷ (call_expire, 9000000000, λ l. written)
    ∷ []

open_file-run_example :
    let s =
      run serde quiet calls
        (open_file serde quiet (λ i. 3) (record { lines = put snapshot 4 ∷ []; tail = none })) in
    (f : File JournalRecord) × (s.journal ≡ some f)
    × (forget_all (open_file serde quiet (λ i. 99) f).entries ≡ forget_all s.entries)
    × ((open_file serde quiet (λ i. 99) f).journaled_ops ≡ s.journaled_ops)
open_file-run_example =
    open_file-run serde quiet (λ i. 3) (λ i. 99) (put snapshot 4 ∷ []) calls (λ r. (refl, refl))
      ((λ l. tt), ((λ l. tt), ((λ l. tt), ((λ l. tt), tt))))
