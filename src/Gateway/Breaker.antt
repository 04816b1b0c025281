-- ===== src/Gateway/Breaker.antt =====
-- The circuit breaker of crates/llm-gateway/src/failover.rs, for calls that do not overlap: each
-- method is one step on the atomics, where the source loads and stores them one by one and
-- threads may interleave. `now` is `now_ms()`; the milliseconds of `reset_after` are kept
-- directly.
pub mod Cycle
pub mod Probe
use dds_llm_orchestrator.Base.{
  ℕ, ◌+◌, ◌-◌, Bool, true, false, not, ◌&&◌, ◌||◌, ltb, leb, ◌==◌, if◌then◌else◌, max, u32, String,
  Option, none, some,
}

pub data HealthStatus : Type 0 where
  healthy degraded unavailable : HealthStatus

pub data BreakerState : Type 0 where
  closed opened half_open : BreakerState

pub record CircuitBreaker : Type 0 where
  pub state : BreakerState
  pub consecutive_failures : ℕ  -- u32
  pub probe_in_flight : Bool
  pub failure_threshold : ℕ
  pub reset_after : ℕ
  pub opened_at_ms : ℕ

unfoldable pub new : ℕ → ℕ → CircuitBreaker
new failure_threshold reset_after = record {
  state = closed;
  consecutive_failures = 0;
  probe_in_flight = false;
  failure_threshold = max failure_threshold 1;
  reset_after = reset_after;
  opened_at_ms = 0;
}

-- The exchange of `false` for `true`.
unfoldable pub try_acquire_probe : CircuitBreaker → CircuitBreaker × Bool
try_acquire_probe b = (record b { probe_in_flight = true }, not b.probe_in_flight)

abbrev ask_in : BreakerState → ℕ → CircuitBreaker → CircuitBreaker × Bool
ask_in closed now b = (b, true)
ask_in half_open now b = try_acquire_probe b
ask_in opened now b =
    if ltb (now - b.opened_at_ms) b.reset_after
    then (b, false)
    else try_acquire_probe (record b { state = half_open })

unfoldable pub is_available : ℕ → CircuitBreaker → CircuitBreaker × Bool
unfolding try_acquire_probe
is_available now b = ask_in b.state now b

unfoldable pub record_success : CircuitBreaker → CircuitBreaker
record_success b = record b { consecutive_failures = 0; probe_in_flight = false; state = closed }

abbrev is_half_open : BreakerState → Bool
is_half_open half_open = true
is_half_open _ = false

unfoldable pub record_failure : ℕ → CircuitBreaker → CircuitBreaker
record_failure now b =
    let failures = u32 (b.consecutive_failures + 1) in
    let counted = record b { consecutive_failures = failures; probe_in_flight = false } in
    if is_half_open b.state || leb b.failure_threshold failures
    then record counted { state = opened; opened_at_ms = now }
    else counted

abbrev health_in : BreakerState → ℕ → HealthStatus
health_in closed failures = if failures == 0 then healthy else degraded
health_in half_open failures = degraded
health_in opened failures = unavailable

unfoldable pub health : CircuitBreaker → HealthStatus
health b = health_in b.state b.consecutive_failures
