-- ===== src/Gateway/Manager.antt =====
-- `FailoverManager` of crates/llm-gateway/src/failover.rs: one breaker to a key, made on first use.
use dds_llm_orchestrator.Base.{ℕ, ◌≡◌, String, Bool, arith, none, some, str_eq, if◌then◌else◌}
use dds_llm_orchestrator.Base.Dict.{Dict, lookup, insert, lookup-insert}
use dds_llm_orchestrator.Gateway.Breaker
use dds_llm_orchestrator.Gateway.Breaker.{CircuitBreaker, HealthStatus}

pub data FailoverStrategy : Type 0 where
  priority round_robin : FailoverStrategy

pub record CircuitBreakerConfig : Type 0 where
  pub failure_threshold : ℕ
  pub recovery_timeout : ℕ

unfoldable pub default_config : CircuitBreakerConfig
default_config = record { failure_threshold = 3; recovery_timeout = 30000 }

unfoldable pub build : CircuitBreakerConfig → CircuitBreaker
build c = Breaker.new c.failure_threshold c.recovery_timeout

-- `FailoverManager`: one breaker to a key, made on the first use.
pub record FailoverManager : Type 0 where
  pub config : CircuitBreakerConfig
  pub strategy : FailoverStrategy
  pub breakers : Dict CircuitBreaker

-- The breaker of a key; the method also stores a new one, as the methods below do.
unfoldable pub breaker : String → FailoverManager → CircuitBreaker
breaker key m = elim (lookup key m.breakers) [ none ↦ build m.config | some b ↦ b ]

abbrev put_breaker : String → CircuitBreaker → FailoverManager → FailoverManager
put_breaker key b m = record m { breakers = insert key b m.breakers }

unfoldable pub is_available : String → ℕ → FailoverManager → FailoverManager × Bool
unfolding breaker
is_available key now m =
    let (b, granted) = Breaker.is_available now (breaker key m) in (put_breaker key b m, granted)

unfoldable pub record_success : String → FailoverManager → FailoverManager
unfolding breaker
record_success key m = put_breaker key (Breaker.record_success (breaker key m)) m

unfoldable pub record_failure : String → ℕ → FailoverManager → FailoverManager
unfolding breaker
record_failure key now m = put_breaker key (Breaker.record_failure now (breaker key m)) m

unfoldable pub health : String → FailoverManager → HealthStatus
unfolding breaker
health key m = Breaker.health (breaker key m)

-- A call under one key leaves the breaker of every other key as it was, and finds its own as the
-- last call under that key left it.
pub record_failure-breaker :
    (key other : String) (now : ℕ) (m : FailoverManager)
    → breaker other (record_failure key now m)
      ≡ (if str_eq key other then Breaker.record_failure now (breaker key m) else breaker other m)
unfolding record_failure
record_failure-breaker key other now m =
    ground (arith, lookup-insert key other (Breaker.record_failure now (breaker key m)) m.breakers)
