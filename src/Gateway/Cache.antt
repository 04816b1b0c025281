-- ===== src/Gateway/Cache.antt =====
-- `LlmCache` of crates/llm-gateway/src/lib.rs: results by key, the oldest insertion evicted at the
-- capacity. The 64-bit clock is left unbounded: it counts insertions.
pub mod Fifo
use dds_llm_orchestrator.Base.{
  ℕ, ℤ, ◌+◌, String, Bool, Option, none, some, if◌then◌else◌, leb, ltb, length, List, [], ◌∷◌,
}
use dds_llm_orchestrator.Base.Dict.{Dict, lookup, insert, remove}

pub record LlmInferenceResult : Type 0 where
  pub request_id : String
  pub seq_num : ℕ
  pub content : String
  pub is_final : Bool
  pub finish_reason : ℤ
  pub model_used : String
  pub tokens_prompt : ℕ
  pub tokens_completion : ℕ
  pub emitted_at_ns : ℕ

pub record CacheEntry : Type 0 where
  pub seq : ℕ
  pub result : LlmInferenceResult

pub record LlmCache : Type 0 where
  pub cache : Dict CacheEntry
  pub clock : ℕ
  pub max_size : ℕ

unfoldable pub new : ℕ → LlmCache
new max_size = record { cache = []; clock = 0; max_size = max_size }

unfoldable pub get : String → LlmCache → Option LlmInferenceResult
get key c = elim (lookup key c.cache) [ none ↦ none | some e ↦ some e.result ]

-- `min_by_key`: the entry with the least insertion number, the first of them.
unfoldable pub oldest_from : String → ℕ → Dict CacheEntry → String
oldest_from key seq [] = key
oldest_from key seq ((k, e) ∷ m) =
    let other = oldest_from k e.seq m in
    let same = oldest_from key seq m in if ltb e.seq seq then other else same

unfoldable pub evict_oldest : Dict CacheEntry → Dict CacheEntry
unfolding oldest_from
evict_oldest [] = []
evict_oldest ((k, e) ∷ m) = remove (oldest_from k e.seq m) ((k, e) ∷ m)

unfoldable pub put : String → LlmInferenceResult → LlmCache → LlmCache
unfolding evict_oldest
put key result c = record c {
  cache =
      insert key (record { seq = c.clock; result = result })
        (if leb c.max_size (length c.cache) then evict_oldest c.cache else c.cache);
  clock = c.clock + 1;
}
