-- ===== src/Gateway/Failover.antt =====
-- The loop over the failover targets in `process_routed` of crates/llm-gateway/src/lib.rs. The clocks
-- of the breakers are a parameter.
use Prim.Native.String.{◌++◌}
use dds_llm_orchestrator.Base.{
  ℕ, ◌+◌, not, ◌||◌, Result, ok, err, List, [], ◌∷◌, ltb, if◌then◌else◌,
}
use dds_llm_orchestrator.Gateway.Breaker
use dds_llm_orchestrator.Gateway.Breaker.{CircuitBreaker}
use dds_llm_orchestrator.Gateway.Cache.{LlmInferenceResult}
use dds_llm_orchestrator.Gateway.Providers.{
  Provider, ProviderConstraint, GatewayError, matches, LlmInferenceRequest, FailoverTarget,
}

-- What the cascade over the targets comes to: the targets with their breakers, the answer, the
-- failures met on the way, whether a target answered, and the kinds of the providers called.
pub record Cascade : Type 0 where
  pub targets : List FailoverTarget
  pub result : Result GatewayError LlmInferenceResult
  pub failures : ℕ
  pub successes : ℕ
  pub called : List Provider

abbrev pub skip : FailoverTarget → Cascade → Cascade
skip t c = record c { targets = t ∷ c.targets }

unfoldable pub failover_request : LlmInferenceRequest → FailoverTarget → LlmInferenceRequest
failover_request request t = record request {
  model_name = t.model;
  request_id = request.request_id ++ "-fo";
}

-- The answer of a target ends the loop before the targets after it.
abbrev pub answered_by : FailoverTarget → List FailoverTarget → LlmInferenceResult → Cascade
answered_by t ts result = record {
  targets = record t { circuit_breaker = Breaker.record_success t.circuit_breaker } ∷ ts;
  result = ok result;
  failures = 0;
  successes = 1;
  called = t.provider.kind ∷ [];
}

-- A target that failed at a time, before what became of the targets after it.
abbrev pub failed_by : ℕ → FailoverTarget → Cascade → Cascade
failed_by now t c = record c {
  targets = record t { circuit_breaker = Breaker.record_failure now t.circuit_breaker } ∷ c.targets;
  failures = c.failures + 1;
  called = t.provider.kind ∷ c.called;
}

-- The target that is called, its breaker asked for already; `rest` is the loop over the others.
abbrev attempt :
    ℕ
    → FailoverTarget
    → List FailoverTarget
    → (GatewayError → Cascade)
    → Result GatewayError LlmInferenceResult
    → Cascade
attempt now t ts rest (ok result) = answered_by t ts result
attempt now t ts rest (err e) = failed_by now t (rest e)

-- `clock i` is when the breaker of the i-th target is asked, and when a failure is recorded on it.
unfoldable pub failover :
    ProviderConstraint
    → LlmInferenceRequest
    → (ℕ → ℕ × ℕ)
    → ℕ
    → List FailoverTarget
    → GatewayError
    → Cascade
unfolding failover_request
failover constraint request clock i [] last_err = record {
  targets = [];
  result = err last_err;
  failures = 0;
  successes = 0;
  called = [];
}
failover constraint request clock i (t ∷ ts) last_err =
    let rest = failover constraint request clock (i + 1) ts in
    let (b, granted) = Breaker.is_available (clock i).0 t.circuit_breaker in
    let asked = record t { circuit_breaker = b } in
    let passed = skip t (rest last_err) in
    let refused = skip asked (rest last_err) in
    let tried = attempt (clock i).1 asked ts rest (t.provider.infer (failover_request request t)) in
    if not (ltb 0 t.priority) || not (matches constraint t.provider.kind)
    then passed
    else if not granted
    then refused
    else tried
