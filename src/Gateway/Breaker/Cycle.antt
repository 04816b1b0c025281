-- ===== src/Gateway/Breaker/Cycle.antt =====
-- Sequences of calls on the breaker of crates/llm-gateway/src/failover.rs, each finished before
-- the next starts.
use dds_llm_orchestrator.Base.{
  ℕ, ◌+◌, ◌≤◌, ◌<◌, ◌≡◌, refl, true, arith, ltb, List, [], ◌∷◌, length, u32_mod, if◌then◌else◌, max,
}
use dds_llm_orchestrator.Gateway.Breaker.{
  CircuitBreaker, closed, opened, half_open, new, is_available, record_success, record_failure,
}

-- A run of failures at the given times.
pub failures : List ℕ → CircuitBreaker → CircuitBreaker
failures [] b = b
failures (now ∷ ts) b = failures ts (record_failure now b)

-- What holds of a breaker between two calls.
pub record IsSound (b : CircuitBreaker) : Type 0 where
  pub threshold_pos : 0 < b.failure_threshold
  pub threshold_u32 : b.failure_threshold < u32_mod
  pub closed_below : b.state ≡ closed → b.consecutive_failures < b.failure_threshold
  pub probe_half_open : b.probe_in_flight ≡ true → b.state ≡ half_open

pub new-IsSound : (threshold reset : ℕ) → threshold < u32_mod → IsSound (new threshold reset)
unfolding new
new-IsSound threshold reset h = ground arith

-- What a caller may do.
pub data Call : Type 0 where
  asks : ℕ → Call
  succeeds : Call
  fails : ℕ → Call

pub call : Call → CircuitBreaker → CircuitBreaker
call (asks now) b = (is_available now b).0
call succeeds b = record_success b
call (fails now) b = record_failure now b

pub calls : List Call → CircuitBreaker → CircuitBreaker
unfolding call
calls [] b = b
calls (c ∷ cs) b = calls cs (call c b)

call-IsSound : (c : Call) (b : CircuitBreaker) → IsSound b → IsSound (call c b)
unfolding call is_available record_success record_failure
call-IsSound (asks now) b h = ground arith
call-IsSound succeeds b h = ground arith
call-IsSound (fails now) b h = ground arith

run-IsSound : (cs : List Call) (b : CircuitBreaker) → IsSound b → IsSound (calls cs b)
unfolding calls
run-IsSound [] b h = h
run-IsSound (c ∷ cs) b h = run-IsSound cs (call c b) (call-IsSound c b h)

-- Whatever calls came before, none overlapping another, in whatever order and at whatever times, a
-- breaker is closed only with fewer failures in a row than its threshold, and a probe is in flight
-- only while it is half open. The threshold fits a u32.
pub calls-IsSound :
    (threshold reset : ℕ) (cs : List Call)
    → threshold < u32_mod
    → IsSound (calls cs (new threshold reset))
calls-IsSound threshold reset cs h = run-IsSound cs _ (new-IsSound threshold reset h)

stays_opened :
    (ts : List ℕ) (b : CircuitBreaker) → b.state ≡ opened → (failures ts b).state ≡ opened
unfolding failures record_failure
stays_opened [] b h = h
stays_opened (now ∷ ts) b h = stays_opened ts (record_failure now b) (ground arith)

failure_below :
    (now : ℕ) (b : CircuitBreaker)
    → b.state ≡ closed
    → b.failure_threshold < u32_mod
    → b.consecutive_failures + 1 < b.failure_threshold
    → ((record_failure now b).state ≡ closed)
      × ((record_failure now b).consecutive_failures ≡ b.consecutive_failures + 1)
      × ((record_failure now b).failure_threshold ≡ b.failure_threshold)
unfolding record_failure
failure_below now b c u h = ground arith

failure_at :
    (now : ℕ) (b : CircuitBreaker)
    → b.state ≡ closed
    → b.failure_threshold < u32_mod
    → b.consecutive_failures < b.failure_threshold
    → b.failure_threshold ≤ b.consecutive_failures + 1
    → (record_failure now b).state ≡ opened
unfolding record_failure
failure_at now b c u h k = ground arith

failures_from :
    (ts : List ℕ) (b : CircuitBreaker)
    → b.state ≡ closed
    → b.failure_threshold < u32_mod
    → b.consecutive_failures < b.failure_threshold
    → (failures ts b).state
      ≡ (if ltb (b.consecutive_failures + length ts) b.failure_threshold then closed else opened)
unfolding failures
failures_from [] b c u h = ground arith
failures_from (now ∷ ts) b c u h = ground (
  arith,
  failure_below now b c u,
  failure_at now b c u h,
  failures_from ts (record_failure now b),
  stays_opened ts (record_failure now b),
)

-- A new breaker that meets nothing but failures opens with the failure that reaches the threshold,
-- no earlier, and stays open. A threshold of 0 counts as 1.
pub new_failures :
    (threshold reset : ℕ) (ts : List ℕ)
    → threshold < u32_mod
    → (failures ts (new threshold reset)).state
      ≡ (if ltb (length ts) (max threshold 1) then closed else opened)
unfolding new
new_failures threshold reset ts h =
    ground (arith, failures_from ts (new threshold reset) refl (omega arith) (omega arith))
