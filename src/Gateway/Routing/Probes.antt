-- ===== src/Gateway/Routing/Probes.antt =====
-- Calls of the breaker by `process_routed` of crates/llm-gateway/src/lib.rs.
use dds_llm_orchestrator.Base.{
  ℕ, ◌≡◌, refl, sym, subst, String, false, ok, err, arith, Option, none, some, List, [], ◌∷◌, All,
  Result, Result-cases, inl, inr, Option-cases, Bool-cases, str_eq,
}
use dds_llm_orchestrator.Base.Dict.{lookup, lookup-insert}
use dds_llm_orchestrator.Gateway.Breaker.{
  CircuitBreaker, is_available, record_success, record_failure,
}
use dds_llm_orchestrator.Gateway.Cache.{LlmInferenceResult}
use dds_llm_orchestrator.Gateway.Routing.{
  Provider, ProviderConstraint, LlmInferenceRequest, FailoverTarget, GatewayProviders, GatewayError,
  LlmGateway, Cascade, try_from, route, failover, over_targets, answered, dispatch,
  under_constraint, process_routed, key_for, cached, get_failover_targets, try_acquire,
  provider_name_from_constraint, conclude,
}
use dds_llm_orchestrator.Gateway.Routing.Cascades.{failover_induction}

abbrev pub IsSettled : FailoverTarget → Type 0
IsSettled t = t.circuit_breaker.probe_in_flight ≡ false

is_available-settled :
    (now : ℕ) (b : CircuitBreaker)
    → b.probe_in_flight ≡ false
    → (is_available now b).1 ≡ false
    → (is_available now b).0.probe_in_flight ≡ false
unfolding is_available
is_available-settled now b s n = ground arith

record_success-settled : (b : CircuitBreaker) → (record_success b).probe_in_flight ≡ false
unfolding record_success
record_success-settled b = refl

record_failure-settled :
    (now : ℕ) (b : CircuitBreaker) → (record_failure now b).probe_in_flight ≡ false
unfolding record_failure
record_failure-settled now b = ground arith

failover-IsSettled :
    (c : ProviderConstraint) (request : LlmInferenceRequest) (clock : ℕ → ℕ × ℕ) (i : ℕ)
    (ts : List FailoverTarget) (e : GatewayError)
    → All IsSettled ts
    → All IsSettled (failover c request clock i ts e).targets
failover-IsSettled c request =
    failover_induction (λ ts k. All IsSettled ts → All IsSettled k.targets) c request (λ e s. tt)
      (λ t ts k h s. (s.0, h s.1))
      (λ now t ts k n h s. (is_available-settled now t.circuit_breaker s.0 n, h s.1))
      (λ now t ts r p q s. (record_success-settled _, s.1))
      (λ now at_failure t ts k e p q h s. (record_failure-settled at_failure _, h s.1))

-- No failover target has a probe in flight.
abbrev pub AllSettled : GatewayProviders → Type 0
AllSettled g =
    (name : String) (ts : List FailoverTarget)
    → lookup name g.failover_configs ≡ some ts
    → All IsSettled ts

targets_none :
    (name : String) (g : GatewayProviders)
    → lookup name g.failover_configs ≡ none
    → get_failover_targets name g ≡ []
unfolding get_failover_targets
targets_none name g n = rw (n, get_failover_targets)

targets_some :
    (name : String) (g : GatewayProviders) (ts : List FailoverTarget)
    → lookup name g.failover_configs ≡ some ts
    → get_failover_targets name g ≡ ts
unfolding get_failover_targets
targets_some name g ts q = rw (q, get_failover_targets)

targets-IsSettled :
    (name : String) (g : GatewayProviders)
    → AllSettled g
    → All IsSettled (get_failover_targets name g)
targets-IsSettled name g s = elim (Option-cases (lookup name g.failover_configs)) [
  | inl n ↦ subst (All IsSettled) (sym (targets_none name g n)) tt
  | inr (ts, q) ↦ subst (All IsSettled) (sym (targets_some name g ts q)) (s name ts q)
]

conclude-settled :
    (key : Option String) (name : String) (k : Cascade) (providers : GatewayProviders)
    (g : LlmGateway)
    → AllSettled providers
    → All IsSettled k.targets
    → AllSettled (conclude key name k providers g).providers
conclude-settled key name k providers g s h other ts q = elim (Bool-cases (str_eq name other)) [
  | inl same ↦
      subst (All IsSettled)
        (ground (arith, lookup-insert name other k.targets providers.failover_configs)) h
  | inr apart ↦
      s other ts (ground (arith, lookup-insert name other k.targets providers.failover_configs))
]

over_targets-settled :
    (c : ProviderConstraint) (request : LlmInferenceRequest) (clock : ℕ → ℕ × ℕ)
    (key : Option String) (providers : GatewayProviders) (e : GatewayError) (g : LlmGateway)
    (ts : List FailoverTarget)
    → AllSettled providers
    → All IsSettled ts
    → AllSettled (over_targets c request clock key providers e g ts).providers
unfolding over_targets
over_targets-settled c request clock key providers e g [] s h = s
over_targets-settled c request clock key providers e g (t ∷ ts) s h =
    conclude-settled key (provider_name_from_constraint c) (failover c request clock 0 (t ∷ ts) e)
      providers g s (failover-IsSettled c request clock 0 (t ∷ ts) e h)

answered-settled :
    (c : ProviderConstraint) (request : LlmInferenceRequest) (clock : ℕ → ℕ × ℕ)
    (key : Option String) (providers : GatewayProviders) (kind : Provider)
    (r : Result GatewayError LlmInferenceResult) (g : LlmGateway)
    → AllSettled providers
    → AllSettled (answered c request clock key providers kind r g).providers
unfolding answered
answered-settled c request clock key providers kind (ok r) g s = s
answered-settled c request clock key providers kind (err e) g s =
    over_targets-settled c request clock key providers e _ _ s (targets-IsSettled _ providers s)

dispatch-settled :
    (c : ProviderConstraint) (request : LlmInferenceRequest) (clock : ℕ → ℕ × ℕ)
    (key : Option String) (new_tokens : ℕ) (providers : GatewayProviders) (g : LlmGateway)
    → AllSettled providers
    → AllSettled (dispatch c request clock key new_tokens providers g).providers
unfolding dispatch
dispatch-settled c request clock key new_tokens providers g s =
    elim (Bool-cases (try_acquire new_tokens g).1) [
      | inr n ↦ rw (n, dispatch) s
      | inl y ↦ elim (Result-cases (route c providers)) [
        | inr (e, q) ↦ rw (y, q, dispatch) s
        | inl (p, q) ↦
            rw (y, q, dispatch)
              (answered-settled c request clock key providers p.kind (p.infer request) _ s)
      ]
    ]

under_constraint-settled :
    (cache_key : LlmInferenceRequest → ProviderConstraint → String) (clock : ℕ → ℕ × ℕ)
    (new_tokens : ℕ) (providers : GatewayProviders) (request : LlmInferenceRequest) (g : LlmGateway)
    (c : ProviderConstraint)
    → AllSettled providers
    → AllSettled (under_constraint cache_key clock new_tokens providers request g c).providers
unfolding under_constraint
under_constraint-settled cache_key clock new_tokens providers request g c s =
    elim (Option-cases (cached (key_for cache_key request c) g)) [
      | inr (hit, q) ↦ rw (q, under_constraint) s
      | inl n ↦
          rw (n, under_constraint)
            (dispatch-settled c request clock (key_for cache_key request c) new_tokens providers g
              s)
    ]

-- A request that finds no probe in flight on any failover target leaves none in flight: every call
-- that a half-open breaker let through was reported to it, whether it succeeded or failed.
pub process_routed-settled :
    (cache_key : LlmInferenceRequest → ProviderConstraint → String) (clock : ℕ → ℕ × ℕ)
    (new_tokens : ℕ) (providers : GatewayProviders) (request : LlmInferenceRequest) (g : LlmGateway)
    → AllSettled providers
    → AllSettled (process_routed cache_key clock new_tokens providers request g).providers
unfolding process_routed
process_routed-settled cache_key clock new_tokens providers request g s =
    elim (Result-cases (try_from request.provider_constraint)) [
      | inr (e, q) ↦ rw (q, process_routed) s
      | inl (c, q) ↦
          rw (q, process_routed)
            (under_constraint-settled cache_key clock new_tokens providers request _ c s)
    ]
