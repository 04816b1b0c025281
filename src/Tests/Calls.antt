-- ===== src/Tests/Calls.antt =====
-- Runs of crates/llm-gateway/src/lib.rs and failover.rs.
use dds_llm_orchestrator.Base.{
  ℕ, ◌≡◌, refl, arith, pos, String, true, false, ok, err, none, some, List, [], ◌∷◌,
}
use dds_llm_orchestrator.Base.Dict.{lookup}
use dds_llm_orchestrator.Gateway.Breaker.{
  CircuitBreaker, opened, half_open, new, is_available, record_failure,
}
use dds_llm_orchestrator.Gateway.Breaker.Cycle.{
  asks, succeeds, fails, calls, IsSound, calls-IsSound,
}
use dds_llm_orchestrator.Gateway.Breaker.Probe.{
  ask_all, ask_all-one_probe, late_failure_frees_probe,
}
use dds_llm_orchestrator.Gateway.Cache.{LlmInferenceResult, CacheEntry, LlmCache, get}
use dds_llm_orchestrator.Gateway.Routing.{
  cloud, ProviderConstraint, cloud_only, LlmInferenceRequest, LlmProvider, FailoverTarget,
  GatewayProviders, inference_failed, LlmGateway, process_routed, try_from, key_for,
  get_failover_targets, provider_name_from_constraint, failover, matches,
}
use dds_llm_orchestrator.Gateway.Routing.Constraint.{AllMatch, process_routed-AllMatch}
use dds_llm_orchestrator.Gateway.Routing.Memory.{process_routed_twice}

abbrev tripped : CircuitBreaker
tripped = record {
  state = opened;
  consecutive_failures = 3;
  probe_in_flight = false;
  failure_threshold = 3;
  reset_after = 30;
  opened_at_ms = 100;
}

abbrev probed : CircuitBreaker
probed = record tripped { state = half_open; probe_in_flight = true }

calls-IsSound_example : IsSound (calls (fails 5 ∷ fails 6 ∷ asks 40 ∷ succeeds ∷ []) (new 2 30))
calls-IsSound_example =
    calls-IsSound 2 30 (fails 5 ∷ fails 6 ∷ asks 40 ∷ succeeds ∷ []) (omega arith)

abbrev run : List ℕ
run = 5 ∷ 6 ∷ 7 ∷ []

ask_all-one_probe_example :
    ask_all (130 ∷ 131 ∷ 132 ∷ []) tripped
    ≡ (record tripped { state = half_open; probe_in_flight = true }, 1)
ask_all-one_probe_example = ask_all-one_probe 130 (131 ∷ 132 ∷ []) tripped refl refl (omega arith)

late_failure_frees_probe_example : (is_available 165 (record_failure 135 probed)).1 ≡ true
late_failure_frees_probe_example = late_failure_frees_probe 135 165 probed refl refl (omega arith)

abbrev answer : LlmInferenceResult
answer = record {
  request_id = "r0";
  seq_num = 0;
  content = "yes";
  is_final = true;
  finish_reason = pos 0;
  model_used = "m";
  tokens_prompt = 1;
  tokens_completion = 1;
  emitted_at_ns = 0;
}

abbrev older : CacheEntry
older = record { seq = 0; result = answer }

abbrev younger : CacheEntry
younger = record { seq = 1; result = answer }

abbrev full : LlmCache
full = record { cache = ("j", older) ∷ ("k", younger) ∷ []; clock = 2; max_size = 2 }

abbrev broken : LlmProvider
broken = record { kind = cloud; infer = λ r. err (inference_failed "down") }

abbrev sound : LlmProvider
sound = record { kind = cloud; infer = λ r. ok answer }

abbrev target : FailoverTarget
target = record { provider = sound; model = "m2"; circuit_breaker = tripped; priority = 1 }

abbrev providers : GatewayProviders
providers = record {
  local_provider = none;
  cloud_provider = some broken;
  failover_configs = ("cloud", target ∷ []) ∷ [];
}

abbrev request : LlmInferenceRequest
request = record {
  request_id = "r1";
  task_id = "t1";
  agent_id = "a1";
  model_name = "m1";
  messages_json = "[]";
  temperature = 0;
  max_tokens = 10;
  stream = false;
  security_level = pos 0;
  provider_constraint = "CLOUD_ONLY";
  created_at_ns = 0;
}

abbrev gateway : LlmGateway
gateway = record {
  tokens = 5;
  max_tokens = 10;
  cache = record { cache = []; clock = 0; max_size = 10 };
  metrics = record {
    total_requests = 0;
    cache_hits = 0;
    rate_limited_count = 0;
    errors = 0;
    failover_successes = 0;
    failover_failures = 0;
  };
}

abbrev cache_key : LlmInferenceRequest → ProviderConstraint → String
cache_key r c = r.messages_json

process_routed-AllMatch_example :
    AllMatch cloud_only
      (process_routed cache_key (λ i. (130, 130)) 0 providers request gateway).called
unfolding try_from
process_routed-AllMatch_example =
    process_routed-AllMatch cache_key (λ i. (130, 130)) 0 providers request gateway cloud_only
      (record { in_local = λ p h. ground arith; in_cloud = λ p h. ground arith }) refl

targets_lem :
    (name : String) (ts : List FailoverTarget)
    → lookup name providers.failover_configs ≡ some ts
    → (target ∷ []) ≡ ts
unfolding lookup
targets_lem name ts h = ground arith

process_routed_twice_example :
    let first = (process_routed cache_key (λ i. (130, 130)) 0 providers request gateway).gateway in
    let second =
      process_routed cache_key
        (λ i. (9, 9))
        1
        providers
        (record request { request_id = "r2" })
        first in
    (second.result ≡ ok (record answer { request_id = "r2" }))
    × (second.called ≡ [])
    × (second.gateway.tokens ≡ first.tokens)
unfolding process_routed try_from lookup key_for get get_failover_targets
    provider_name_from_constraint failover matches is_available
process_routed_twice_example =
    process_routed_twice cache_key (λ i. (130, 130)) (λ i. (9, 9)) 0 1 providers providers request
      (record request { request_id = "r2" }) gateway cloud_only answer refl refl refl refl refl refl
