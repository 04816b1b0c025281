-- ===== src/ContextStore/Entries.antt =====
-- The entries and what a snapshot or an update does to them: crates/context-store/src/store.rs and
-- the maps of local.rs. Reading and printing JSON is serde's and a parameter, as is the clock.
use dds_llm_orchestrator.Base.{
  ℕ, ◌*◌, ℤ, pos, negsuc, ◌==◌, String, Bool, false, Option, none, some, Result, ok, err,
  if◌then◌else◌, saturating_add,
}
use dds_llm_orchestrator.Base.Dict.{Dict, lookup, insert}
use dds_llm_orchestrator.Policy.Json.{Value, Items, nil, cons, array}

pub record ContextSnapshot : Type 0 where
  pub context_id : String
  pub client_id : String
  pub session_id : String
  pub messages_json : String
  pub metadata_json : String
  pub security_level : ℤ
  pub created_at_ns : ℕ
  pub updated_at_ns : ℕ
  pub ttl_seconds : ℕ

pub record ContextUpdate : Type 0 where
  pub context_id : String
  pub update_type : ℤ
  pub messages_delta_json : String
  pub metadata_delta_json : String
  pub updated_at_ns : ℕ

-- The payloads that serde and the system give an error are left out.
pub data StoreError : Type 0 where
  io json : StoreError
  not_json_array : String → String → StoreError

abbrev pub default_ttl_seconds : ℕ
default_ttl_seconds = 3600

-- What serde does with the text of a JSON value.
pub record Serde : Type 0 where
  pub from_str : String → Option Value
  pub to_string : Value → String

unfoldable pub extend : Items → Items → Items
extend nil js = js
extend (cons v is) js = cons v (extend is js)

abbrev pub as_array : String → String → Value → Result StoreError Items
as_array id field (array vs) = ok vs
as_array id field v = err (not_json_array id field)

-- Both fields are read before either is seen to be an array.
unfoldable pub append_delta : Serde → String → String → String → Result StoreError String
unfolding extend
append_delta serde id current delta = elim (serde.from_str current) [
  | none ↦ err json
  | some existing ↦ elim (serde.from_str delta) [
    | none ↦ err json
    | some added ↦ elim (as_array id "messages_json" existing) [
      | err e ↦ err e
      | ok vs ↦ elim (as_array id "messages_delta_json" added) [
        | err e ↦ err e
        | ok ws ↦ ok (serde.to_string (array (extend vs ws)))
      ]
    ]
  ]
]

abbrev is_type : ℕ → ℤ → Bool
is_type n (pos m) = m == n
is_type n (negsuc m) = false

unfoldable pub apply_messages_delta :
    Serde → String → String → ContextUpdate → Result StoreError String
unfolding append_delta
apply_messages_delta serde id current u =
    if is_type 0 u.update_type
    then append_delta serde id current u.messages_delta_json
    else if is_type 1 u.update_type
    then ok u.messages_delta_json
    else if is_type 2 u.update_type
    then ok "[]"
    else ok current

unfoldable pub snapshot_from_update : ContextUpdate → ℕ → ContextSnapshot
snapshot_from_update u now = record {
  context_id = u.context_id;
  client_id = "";
  session_id = "";
  messages_json = "[]";
  metadata_json = "{}";
  security_level = pos 0;
  created_at_ns = now;
  updated_at_ns = u.updated_at_ns;
  ttl_seconds = default_ttl_seconds;
}

unfoldable pub expires_from_now : ℕ → ℕ → ℕ
expires_from_now now ttl_seconds = saturating_add now (ttl_seconds * 1000000000)

pub record ContextEntry : Type 0 where
  pub snapshot : ContextSnapshot
  pub expires_at_ns : ℕ

unfoldable pub upsert_entry : ContextSnapshot → ℕ → Dict ContextEntry → Dict ContextEntry
upsert_entry s expires m = elim (lookup s.context_id m) [
  | some e ↦
      let old = e.snapshot in
      insert s.context_id
        (record {
          snapshot = record old {
            messages_json = s.messages_json;
            metadata_json = s.metadata_json;
            security_level = s.security_level;
            updated_at_ns = s.updated_at_ns;
            ttl_seconds = s.ttl_seconds;
          };
          expires_at_ns = expires;
        })
        m
  | none ↦ insert s.context_id (record { snapshot = s; expires_at_ns = expires }) m
]

-- The entry of an update with the snapshot it finds or is given, once its messages are known.
abbrev pub write_update :
    ContextUpdate
    → ℕ
    → ContextSnapshot
    → Dict ContextEntry
    → Result StoreError String
    → Dict ContextEntry × Result StoreError (Unit {0})
write_update u expires s m (ok messages) = (
  insert u.context_id
      (record {
        snapshot = record s { messages_json = messages; updated_at_ns = u.updated_at_ns };
        expires_at_ns = expires;
      })
      m,
  ok tt,
)
write_update u expires s m (err e) = (m, err e)

unfoldable pub apply_update_entry :
    Serde
    → ℕ
    → ContextUpdate
    → ℕ
    → Dict ContextEntry
    → Dict ContextEntry × Result StoreError (Unit {0})
unfolding snapshot_from_update
apply_update_entry serde now u expires m = elim (lookup u.context_id m) [
  | some e ↦
      write_update u expires e.snapshot m
        (apply_messages_delta serde u.context_id e.snapshot.messages_json u)
  | none ↦
      write_update u expires (snapshot_from_update u now) m
        (apply_messages_delta serde u.context_id "[]" u)
]
