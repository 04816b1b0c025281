-- ===== src/Gateway/Cache/Fifo.antt =====
-- The evictions of `LlmCache` in crates/llm-gateway/src/lib.rs.
use dds_llm_orchestrator.Base.{
  ℕ, ◌+◌, ◌-◌, ◌≤◌, ◌≡◌, String, true, arith, none, some, str_eq, eq_iff, if◌then◌else◌, leb, ltb,
  length, [], ◌∷◌, max,
}
use dds_llm_orchestrator.Base.Dict.{
  Dict, lookup, insert, remove, keys, mem, mem-keys, lookup-insert, lookup-remove, Distinct,
}
use dds_llm_orchestrator.Gateway.Cache.{
  LlmInferenceResult, CacheEntry, LlmCache, oldest_from, evict_oldest, put,
}

length-insert :
    (k : String) (e : CacheEntry) (m : Dict CacheEntry) → length (insert k e m) ≤ length m + 1
unfolding insert
length-insert k e [] = omega arith
length-insert k e ((j, w) ∷ m) = ground (arith, length-insert k e m)

length-remove-le : (k : String) (m : Dict CacheEntry) → length (remove k m) ≤ length m
unfolding remove
length-remove-le k [] = omega arith
length-remove-le k ((j, w) ∷ m) = ground (arith, length-remove-le k m)

length-remove :
    (k : String) (m : Dict CacheEntry) → mem k (keys m) ≡ true → length (remove k m) + 1 ≤ length m
unfolding remove mem
length-remove k [] h = cc
length-remove k ((j, w) ∷ m) h = ground (arith, length-remove-le k m, length-remove k m)

-- The key that is found stands in the table.
oldest_from-mem :
    (k : String) (n : ℕ) (m : Dict CacheEntry) → mem (oldest_from k n m) (k ∷ keys m) ≡ true
unfolding oldest_from mem
oldest_from-mem k n [] = ground (arith, eq_iff k k)
oldest_from-mem k n ((j, w) ∷ m) = ground (arith, oldest_from-mem j w.seq m, oldest_from-mem k n m)

evict_oldest-length : (m : Dict CacheEntry) → length (evict_oldest m) ≤ length m - 1
unfolding evict_oldest
evict_oldest-length [] = omega arith
evict_oldest-length ((k, e) ∷ m) =
    omega (arith, length-remove (oldest_from k e.seq m) ((k, e) ∷ m) (oldest_from-mem k e.seq m))

-- The cache never holds more results than its capacity (one, where the capacity is 0).
pub put-within :
    (key : String) (r : LlmInferenceResult) (c : LlmCache)
    → length c.cache ≤ max c.max_size 1
    → length (put key r c).cache ≤ max c.max_size 1
unfolding put
put-within key r c h = ground (
  arith,
  evict_oldest-length c.cache,
  length-insert key (record { seq = c.clock; result = r }) c.cache,
  length-insert key (record { seq = c.clock; result = r }) (evict_oldest c.cache),
)

-- The least insertion number.
oldest_seq : ℕ → Dict CacheEntry → ℕ
oldest_seq n [] = n
oldest_seq n ((j, w) ∷ m) =
    let other = oldest_seq w.seq m in
    let same = oldest_seq n m in if ltb w.seq n then other else same

oldest_seq-le : (n : ℕ) (m : Dict CacheEntry) → oldest_seq n m ≤ n
unfolding oldest_seq
oldest_seq-le n [] = omega arith
oldest_seq-le n ((j, w) ∷ m) = ground (arith, oldest_seq-le w.seq m, oldest_seq-le n m)

oldest_seq-least :
    (n : ℕ) (j : String) (e : CacheEntry) (m : Dict CacheEntry)
    → lookup j m ≡ some e
    → oldest_seq n m ≤ e.seq
unfolding oldest_seq lookup
oldest_seq-least n j e [] h = cc
oldest_seq-least n j e ((i, w) ∷ m) h = ground (
  arith,
  oldest_seq-least w.seq j e m,
  oldest_seq-least n j e m,
  oldest_seq-le w.seq m,
  oldest_seq-le n m,
)

-- The entry under the key that is found has the least insertion number.
oldest_from-seq :
    (k : String) (e x : CacheEntry) (m : Dict CacheEntry)
    → Distinct ((k, e) ∷ m)
    → lookup (oldest_from k e.seq m) ((k, e) ∷ m) ≡ some x
    → x.seq ≡ oldest_seq e.seq m
unfolding oldest_from oldest_seq lookup mem
oldest_from-seq k e x [] d h = ground (arith, eq_iff k k)
oldest_from-seq k e x ((j, w) ∷ m) d h =
    let apart : lookup k m ≡ none = ground (arith, d.0) in
    ground (
      arith,
      oldest_from-mem j w.seq m,
      oldest_from-mem k e.seq m,
      mem-keys (oldest_from j w.seq m) ((j, w) ∷ m),
      mem-keys (oldest_from k e.seq m) m,
      eq_iff k (oldest_from j w.seq m),
      eq_iff k (oldest_from k e.seq m),
      eq_iff j (oldest_from k e.seq m),
      eq_iff k j,
      oldest_from-seq j w x m d.1,
      oldest_from-seq k e x m (apart, d.1.1),
    )

pub lookup-put :
    (key j : String) (r : LlmInferenceResult) (c : LlmCache)
    → lookup j (put key r c).cache ≡ (
        if str_eq key j
        then some (record { seq = c.clock; result = r })
        else lookup j (if leb c.max_size (length c.cache) then evict_oldest c.cache else c.cache))
unfolding put
lookup-put key j r c = lookup-insert key j _ _

evict_oldest-least :
    (m : Dict CacheEntry) (j k : String) (e e' : CacheEntry)
    → Distinct m
    → lookup j m ≡ some e
    → lookup j (evict_oldest m) ≡ none
    → lookup k m ≡ some e'
    → e.seq ≤ e'.seq
unfolding evict_oldest lookup
evict_oldest-least [] j k e e' d h gone h' = cc
evict_oldest-least ((i, w) ∷ m) j k e e' d h gone h' = ground (
  arith,
  lookup-remove (oldest_from i w.seq m) j ((i, w) ∷ m),
  eq_iff (oldest_from i w.seq m) j,
  oldest_from-seq i w e m d,
  oldest_seq-le w.seq m,
  oldest_seq-least w.seq k e' m,
)

-- A result that an insertion pushes out is no younger than any result that was in the cache.
pub put-evicts_oldest :
    (key j k : String) (r : LlmInferenceResult) (c : LlmCache) (e e' : CacheEntry)
    → Distinct c.cache
    → lookup j c.cache ≡ some e
    → lookup j (put key r c).cache ≡ none
    → lookup k c.cache ≡ some e'
    → e.seq ≤ e'.seq
put-evicts_oldest key j k r c e e' d h gone h' =
    ground (arith, lookup-put key j r c, evict_oldest-least c.cache j k e e' d h)
