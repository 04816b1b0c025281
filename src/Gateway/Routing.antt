-- ===== src/Gateway/Routing.antt =====
-- The routing of a request in crates/llm-gateway/src/lib.rs: rate limit, cache, primary provider and
-- failover, of one request at a time. The text of a cache key, the tokens that the float arithmetic
-- of `refill` yields and the clocks of the breakers are parameters.
pub mod Cascades
pub mod Constraint
pub mod Probes
pub mod Memory
use Prim.Native.String.{◌++◌}
use dds_llm_orchestrator.Base.{
  ℕ, zero, suc, ◌+◌, ◌-◌, String, Bool, true, false, not, ◌&&◌, ◌||◌, Option, none, some, Result,
  ok, err, List, [], ◌∷◌, str_eq, ltb, leb, if◌then◌else◌, saturating_add, ℤ, ◌==◌,
}
use dds_llm_orchestrator.Base.Dict.{Dict, lookup, insert}
use dds_llm_orchestrator.Gateway.Breaker
use dds_llm_orchestrator.Gateway.Breaker.{CircuitBreaker}
use dds_llm_orchestrator.Gateway.Cache
use dds_llm_orchestrator.Gateway.Cache.{LlmCache, LlmInferenceResult}
unfoldable pub use dds_llm_orchestrator.Gateway.Providers.{
  matches, as_literal, try_from, get_failover_targets, register_failover, route,
  provider_name_from_constraint,
}
pub use dds_llm_orchestrator.Gateway.Providers.{
  Provider, local, cloud, ProviderConstraint, any_provider, local_only, cloud_only, GatewayError,
  rate_limited, provider_unavailable, inference_failed, timeout, invalid_provider_constraint,
  LlmInferenceRequest, LlmProvider, FailoverTarget, GatewayProviders,
}
unfoldable pub use dds_llm_orchestrator.Gateway.Failover.{failover_request, failover}
pub use dds_llm_orchestrator.Gateway.Failover.{Cascade, skip, answered_by, failed_by}

pub record GatewayMetrics : Type 0 where
  pub total_requests : ℕ
  pub cache_hits : ℕ
  pub rate_limited_count : ℕ
  pub errors : ℕ
  pub failover_successes : ℕ
  pub failover_failures : ℕ

-- The worker semaphore only delays a request and is left out.
pub record LlmGateway : Type 0 where
  pub tokens : ℕ
  pub max_tokens : ℕ
  pub cache : LlmCache
  pub metrics : GatewayMetrics

-- `u32::saturating_add`
abbrev pub saturating_add_u32 : ℕ → ℕ → ℕ
saturating_add_u32 a b = if leb (a + b) 4294967295 then a + b else 4294967295

-- `refill`, when `new_tokens` have accrued since the last one.
unfoldable pub refill : ℕ → LlmGateway → LlmGateway
refill new_tokens g =
    if ltb 0 new_tokens
    then record g {
      tokens =
          (if leb (saturating_add_u32 g.tokens new_tokens) g.max_tokens
            then saturating_add_u32 g.tokens new_tokens
            else g.max_tokens);
    }
    else g

-- `checked_sub(1)` after the refill.
unfoldable pub try_acquire : ℕ → LlmGateway → LlmGateway × Bool
unfolding refill
try_acquire new_tokens g =
    let g' = refill new_tokens g in
    if g'.tokens == 0 then (g', false) else (record g' { tokens = g'.tokens - 1 }, true)

-- What one call of `process_routed` leaves behind.
pub record Reply : Type 0 where
  pub gateway : LlmGateway
  pub providers : GatewayProviders
  pub result : Result GatewayError LlmInferenceResult
  pub called : List Provider

abbrev count_total : LlmGateway → LlmGateway
count_total g = record g { metrics = record m { total_requests = m.total_requests + 1 } }
  where
    m : GatewayMetrics
    m = g.metrics

abbrev pub remember : Option String → LlmInferenceResult → LlmGateway → LlmGateway
remember none result g = g
remember (some key) result g = record g { cache = Cache.put key result g.cache }

abbrev pub remember_ok :
    Option String → Result GatewayError LlmInferenceResult → LlmGateway → LlmGateway
remember_ok key (ok result) g = remember key result g
remember_ok key (err e) g = g

-- The gateway and the providers after a cascade.
abbrev pub conclude : Option String → String → Cascade → GatewayProviders → LlmGateway → Reply
conclude key name c providers g =
    let m = g.metrics in
    record {
      gateway = remember_ok key c.result (record g {
        metrics = record m {
          failover_successes = m.failover_successes + c.successes;
          failover_failures = m.failover_failures + c.failures;
        };
      });
      providers = record providers {
        failover_configs = insert name c.targets providers.failover_configs;
      };
      result = c.result;
      called = c.called;
    }

unfoldable pub over_targets :
    ProviderConstraint
    → LlmInferenceRequest
    → (ℕ → ℕ × ℕ)
    → Option String
    → GatewayProviders
    → GatewayError
    → LlmGateway
    → List FailoverTarget
    → Reply
over_targets constraint request clock key providers e g [] = record {
  gateway = g;
  providers = providers;
  result = err e;
  called = [];
}
over_targets constraint request clock key providers e g (t ∷ ts) =
    conclude key (provider_name_from_constraint constraint)
      (failover constraint request clock 0 (t ∷ ts) e) providers g

-- The failover of a provider whose own answer was the error `e`.
unfoldable pub cascade :
    ProviderConstraint
    → LlmInferenceRequest
    → (ℕ → ℕ × ℕ)
    → Option String
    → GatewayProviders
    → GatewayError
    → LlmGateway
    → Reply
unfolding over_targets
cascade constraint request clock key providers e g =
    over_targets constraint request clock key providers e g
      (get_failover_targets (provider_name_from_constraint constraint) providers)

-- The primary provider has answered.
unfoldable pub answered :
    ProviderConstraint
    → LlmInferenceRequest
    → (ℕ → ℕ × ℕ)
    → Option String
    → GatewayProviders
    → Provider
    → Result GatewayError LlmInferenceResult
    → LlmGateway
    → Reply
unfolding cascade
answered constraint request clock key providers kind (ok result) g = record {
  gateway = remember key result g;
  providers = providers;
  result = ok result;
  called = kind ∷ [];
}
answered constraint request clock key providers kind (err e) g =
    let m = g.metrics in
    let failed : LlmGateway = record g { metrics = record m { errors = m.errors + 1 } } in
    let r = cascade constraint request clock key providers e failed in
    record r { called = kind ∷ r.called }

-- Past the cache: rate limit, route, call.
unfoldable pub dispatch :
    ProviderConstraint
    → LlmInferenceRequest
    → (ℕ → ℕ × ℕ)
    → Option String
    → ℕ
    → GatewayProviders
    → LlmGateway
    → Reply
unfolding try_acquire route answered
dispatch constraint request clock key new_tokens providers g =
    let (g', acquired) = try_acquire new_tokens g in
    let m = g'.metrics in
    if not acquired
    then record {
      gateway = record g' { metrics = record m { rate_limited_count = m.rate_limited_count + 1 } };
      providers = providers;
      result = err (rate_limited "gateway saturado, tente novamente");
      called = [];
    }
    else elim (route constraint providers) [
      | err e ↦ record { gateway = g'; providers = providers; result = err e; called = [] }
      | ok p ↦ answered constraint request clock key providers p.kind (p.infer request) g'
    ]

abbrev pub cached : Option String → LlmGateway → Option LlmInferenceResult
cached none g = none
cached (some key) g = Cache.get key g.cache

unfoldable pub key_for :
    (LlmInferenceRequest → ProviderConstraint → String)
    → LlmInferenceRequest
    → ProviderConstraint
    → Option String
key_for cache_key request constraint =
    if request.stream then none else some (cache_key request constraint)

unfoldable pub under_constraint :
    (LlmInferenceRequest → ProviderConstraint → String)
    → (ℕ → ℕ × ℕ)
    → ℕ
    → GatewayProviders
    → LlmInferenceRequest
    → LlmGateway
    → ProviderConstraint
    → Reply
unfolding dispatch
under_constraint cache_key clock new_tokens providers request g constraint =
    let key = key_for cache_key request constraint in
    let m = g.metrics in
    elim (cached key g) [
      | some hit ↦ record {
        gateway = record g { metrics = record m { cache_hits = m.cache_hits + 1 } };
        providers = providers;
        result = ok (record hit { request_id = request.request_id });
        called = [];
      }
      | none ↦ dispatch constraint request clock key new_tokens providers g
    ]

unfoldable pub process_routed :
    (LlmInferenceRequest → ProviderConstraint → String)
    → (ℕ → ℕ × ℕ)
    → ℕ
    → GatewayProviders
    → LlmInferenceRequest
    → LlmGateway
    → Reply
unfolding try_from under_constraint
process_routed cache_key clock new_tokens providers request g =
    let g' = count_total g in
    elim (try_from request.provider_constraint) [
      | err e ↦ record { gateway = g'; providers = providers; result = err e; called = [] }
      | ok constraint ↦ under_constraint cache_key clock new_tokens providers request g' constraint
    ]
