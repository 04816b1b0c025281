-- ===== src/ContextStore/Recovery.antt =====
-- The replay of the journal of crates/context-store/src/local.rs. A context that an update
-- created keeps no creation time on file, so the entries are compared without it.
pub mod Journaled
use dds_llm_orchestrator.Base.{
  ℕ, ◌+◌, ◌≡◌, refl, sym, ap, ◌∙◌, subst, String, Bool, true, false, Option, none, some,
  Option-cases, Result, Result-cases, ok, err, List, [], ◌∷◌, str_eq, if◌then◌else◌, ◌++◌, inl, inr,
  Bool-cases, arith,
}
use dds_llm_orchestrator.Base.Dict.{
  Dict, lookup, insert, remove, map_values, map_option, lookup-map_values, map_values-insert,
  map_values-remove,
}
use dds_llm_orchestrator.ContextStore.Entries.{
  ContextSnapshot, ContextUpdate, StoreError, io, Serde, ContextEntry, upsert_entry,
  apply_update_entry, apply_messages_delta, snapshot_from_update, write_update,
}
use dds_llm_orchestrator.ContextStore.Store.{
  JournalRecord, put, update, expire, Journal, LocalContextStore, replay_record, replay_line,
  replay, open_file, journal_append, put_snapshot, apply_update, expire_all, expire_ttl, expired,
  Call, call_put, call_update, call_expire, step, run,
}

abbrev pub forget : ContextEntry → ContextEntry
forget e = let s = e.snapshot in record e { snapshot = record s { created_at_ns = 0 } }

abbrev pub forget_all : Dict ContextEntry → Dict ContextEntry
forget_all = map_values forget

forget_all_twice : (m : Dict ContextEntry) → forget_all (forget_all m) ≡ forget_all m
forget_all_twice [] = refl
forget_all_twice ((id, e) ∷ m) = ap (λ m'. (id, forget e) ∷ m') (forget_all_twice m)

insert-forget :
    (id : String) (e d : ContextEntry) (m : Dict ContextEntry)
    → forget e ≡ forget d
    → forget_all (insert id e m) ≡ forget_all (insert id d (forget_all m))
insert-forget id e d m h =
    map_values-insert forget id e m
    ∙ ap (λ x. insert id x (forget_all m)) h
    ∙ ap (insert id (forget d)) (sym (forget_all_twice m))
    ∙ sym (map_values-insert forget id d (forget_all m))

lookup_forgotten :
    (id : String) (m : Dict ContextEntry) (o : Option ContextEntry)
    → lookup id m ≡ o
    → lookup id (forget_all m) ≡ map_option forget o
lookup_forgotten id m o q = lookup-map_values forget id m ∙ ap (map_option forget) q

upsert_entry-forget :
    (s : ContextSnapshot) (x : ℕ) (m : Dict ContextEntry)
    → forget_all (upsert_entry s x m) ≡ forget_all (upsert_entry s x (forget_all m))
unfolding upsert_entry
upsert_entry-forget s x m = elim (Option-cases (lookup s.context_id m)) [
  | inl n ↦
      rw (n, lookup_forgotten s.context_id m none n, upsert_entry)
        (insert-forget s.context_id _ _ m refl)
  | inr (e, q) ↦
      rw (q, lookup_forgotten s.context_id m (some e) q, upsert_entry)
        (insert-forget s.context_id _ _ m refl)
]

write_update-forget :
    (u : ContextUpdate) (x : ℕ) (e d : ContextEntry) (m : Dict ContextEntry)
    (r : Result StoreError String)
    → forget e ≡ forget d
    → forget_all (write_update u x e.snapshot m r).0
      ≡ forget_all (write_update u x d.snapshot (forget_all m) r).0
write_update-forget u x e d m (ok messages) h = insert-forget u.context_id _ _ m (
    ap
      (λ (y : ContextEntry). record {
        snapshot = record y.snapshot { messages_json = messages; updated_at_ns = u.updated_at_ns };
        expires_at_ns = x;
      })
      h)
write_update-forget u x e d m (err f) h = sym (forget_all_twice m)

apply_update_entry-forget :
    (serde : Serde) (now now' : ℕ) (u : ContextUpdate) (x : ℕ) (m : Dict ContextEntry)
    → forget_all (apply_update_entry serde now u x m).0
      ≡ forget_all (apply_update_entry serde now' u x (forget_all m)).0
unfolding apply_update_entry
apply_update_entry-forget serde now now' u x m = elim (Option-cases (lookup u.context_id m)) [
  | inl n ↦
      rw (n, lookup_forgotten u.context_id m none n, apply_update_entry)
        (write_update-forget u x
          (record { snapshot = snapshot_from_update u now; expires_at_ns = x })
          (record { snapshot = snapshot_from_update u now'; expires_at_ns = x }) m _ refl)
  | inr (e, q) ↦
      rw (q, lookup_forgotten u.context_id m (some e) q, apply_update_entry)
        (write_update-forget u x e (forget e) m _ refl)
]

remove-forget :
    (id : String) (m : Dict ContextEntry)
    → forget_all (remove id m) ≡ forget_all (remove id (forget_all m))
remove-forget id m =
    map_values-remove forget id m
    ∙ ap (remove id) (sym (forget_all_twice m))
    ∙ sym (map_values-remove forget id (forget_all m))

-- Entries that differ in creation times only still do after a record.
pub replay_record-forget :
    (serde : Serde) (now now' : ℕ) (r : JournalRecord) (m m' : Dict ContextEntry)
    → forget_all m ≡ forget_all m'
    → forget_all (replay_record serde now r m) ≡ forget_all (replay_record serde now' r m')
unfolding replay_record
replay_record-forget serde now now' (put s x) m m' h =
    upsert_entry-forget s x m
    ∙ ap (λ d. forget_all (upsert_entry s x d)) h
    ∙ sym (upsert_entry-forget s x m')
replay_record-forget serde now now' (update u x) m m' h =
    apply_update_entry-forget serde now now u x m
    ∙ ap (λ d. forget_all (apply_update_entry serde now u x d).0) h
    ∙ sym (apply_update_entry-forget serde now' now u x m')
replay_record-forget serde now now' (expire id) m m' h =
    remove-forget id m ∙ ap (λ d. forget_all (remove id d)) h ∙ sym (remove-forget id m')
