-- ===== src/Policy/Cache.antt =====
-- `PolicyCache` of crates/policy-engine/src/cache.rs: documents by id until they expire. The clock,
-- in milliseconds, is an argument, as in `get_at` and `set_at`.
use dds_llm_orchestrator.Base.{
  ℕ, ◌+◌, ◌%◌, ◌≤◌, String, Bool, ◌≡◌, Option, none, some, ltb, leb, if◌then◌else◌, str_eq, eq_iff,
  length, ◌==◌, saturating_add, u64_max, arith,
}
use dds_llm_orchestrator.Base.Dict.{
  Dict, lookup, insert, remove, lookup-insert, lookup-remove, keep_if, contains_key,
}
use dds_llm_orchestrator.Policy.Json.{Value}

pub record CacheEntry : Type 0 where
  pub value : Value
  pub expires_at_ms : ℕ

abbrev pub PolicyCache : Type 0
PolicyCache = Dict CacheEntry

unfoldable pub get_at : String → ℕ → PolicyCache → PolicyCache × Option Value
unfolding lookup remove
get_at policy_id now c = elim (lookup policy_id c) [
  | none ↦ (c, none)
  | some e ↦ if leb e.expires_at_ms now then (remove policy_id c, none) else (c, some e.value)
]

-- `as_millis() as u64` keeps 64 bits of the duration.
unfoldable pub set_at : String → Value → ℕ → ℕ → PolicyCache → PolicyCache
unfolding insert
set_at policy_id value ttl_ms now c =
    insert policy_id
      (record { value = value; expires_at_ms = saturating_add now (ttl_ms % (u64_max + 1)) }) c

unfoldable pub delete : String → PolicyCache → PolicyCache × Bool
unfolding contains_key remove
delete policy_id c = (remove policy_id c, contains_key policy_id c)

unfoldable pub len : PolicyCache → ℕ
len c = length c

unfoldable pub is_empty : PolicyCache → Bool
is_empty c = length c == 0

-- What a cache holds for a reader at some instant, of any document.
abbrev pub readable : ℕ → PolicyCache → String → Option Value
readable now c policy_id = (get_at policy_id now c).1

-- A document that was set is read under its id until its time is out, and under other ids nothing
-- changes; a read, which may drop the document it looks for, changes what no later reader gets.
pub set_at-get_at :
    (policy_id other : String) (value : Value) (ttl_ms set read later : ℕ) (c : PolicyCache)
    → read ≤ later
    → (readable read (set_at policy_id value ttl_ms set c) other ≡ (
        if str_eq policy_id other
        then keep_if (ltb read (saturating_add set (ttl_ms % (u64_max + 1)))) value
        else readable read c other))
      × (readable later (get_at policy_id read c).0 other ≡ readable later c other)
unfolding get_at set_at
set_at-get_at policy_id other value ttl_ms set read later c h = (
  ground (
    arith,
    lookup-insert policy_id other
        (record { value = value; expires_at_ms = saturating_add set (ttl_ms % (u64_max + 1)) }) c,
  ),
  ground (arith, h, lookup-remove policy_id other c, eq_iff policy_id other),
)
