-- ===== src/Gateway/Routing/Constraint.antt =====
-- The provider constraint in `process_routed` of crates/llm-gateway/src/lib.rs.
use dds_llm_orchestrator.Base.{
  ℕ, ◌≡◌, refl, String, true, ok, err, arith, Option, some, List, [], ◌∷◌, All, Result-cases, inl,
  inr, Option-cases, Result, Bool-cases,
}
use dds_llm_orchestrator.Gateway.Cache.{LlmInferenceResult}
use dds_llm_orchestrator.Gateway.Routing.{
  Provider, local, cloud, ProviderConstraint, any_provider, local_only, cloud_only,
  LlmInferenceRequest, LlmProvider, FailoverTarget, GatewayProviders, GatewayError, LlmGateway,
  over_targets, matches, try_from, route, failover, answered, dispatch, under_constraint,
  process_routed, key_for, cached, try_acquire,
}
use dds_llm_orchestrator.Gateway.Routing.Cascades.{failover_induction}

-- The local and the cloud provider are in their places.
pub record IsWellKinded (g : GatewayProviders) : Type 0 where
  pub in_local : (p : LlmProvider) → g.local_provider ≡ some p → p.kind ≡ local
  pub in_cloud : (p : LlmProvider) → g.cloud_provider ≡ some p → p.kind ≡ cloud

abbrev pub AllMatch : ProviderConstraint → List Provider → Type 0
AllMatch c ks = All (λ k. matches c k ≡ true) ks

failover-AllMatch :
    (c : ProviderConstraint) (request : LlmInferenceRequest) (clock : ℕ → ℕ × ℕ) (i : ℕ)
    (ts : List FailoverTarget) (e : GatewayError)
    → AllMatch c (failover c request clock i ts e).called
failover-AllMatch c request =
    failover_induction (λ ts k. AllMatch c k.called) c request (λ e. tt) (λ t ts k h. h)
      (λ now t ts k n h. h) (λ now t ts r p q. (p.may_serve, tt))
      (λ now at_failure t ts k e p q h. (p.may_serve, h))

over_targets-AllMatch :
    (c : ProviderConstraint) (request : LlmInferenceRequest) (clock : ℕ → ℕ × ℕ)
    (key : Option String) (providers : GatewayProviders) (e : GatewayError) (g : LlmGateway)
    (ts : List FailoverTarget)
    → AllMatch c (over_targets c request clock key providers e g ts).called
unfolding over_targets
over_targets-AllMatch c request clock key providers e g [] = tt
over_targets-AllMatch c request clock key providers e g (t ∷ ts) =
    failover-AllMatch c request clock 0 (t ∷ ts) e

answered-AllMatch :
    (c : ProviderConstraint) (request : LlmInferenceRequest) (clock : ℕ → ℕ × ℕ)
    (key : Option String) (providers : GatewayProviders) (kind : Provider)
    (r : Result GatewayError LlmInferenceResult) (g : LlmGateway)
    → matches c kind ≡ true
    → AllMatch c (answered c request clock key providers kind r g).called
unfolding answered
answered-AllMatch c request clock key providers kind (ok r) g m = (m, tt)
answered-AllMatch c request clock key providers kind (err e) g m =
    (m, over_targets-AllMatch c request clock key providers e _ _)

route-matches :
    (c : ProviderConstraint) (g : GatewayProviders) (p : LlmProvider)
    → IsWellKinded g
    → route c g ≡ ok p
    → matches c p.kind ≡ true
unfolding route matches
route-matches any_provider g p w e = refl
route-matches local_only g p w e = elim (Option-cases g.local_provider) [
  | inl n ↦ ground arith
  | inr (q, n) ↦ ground (arith, w.in_local q n)
]
route-matches cloud_only g p w e = elim (Option-cases g.cloud_provider) [
  | inl n ↦ ground arith
  | inr (q, n) ↦ ground (arith, w.in_cloud q n)
]

dispatch-AllMatch :
    (c : ProviderConstraint) (request : LlmInferenceRequest) (clock : ℕ → ℕ × ℕ)
    (key : Option String) (new_tokens : ℕ) (providers : GatewayProviders) (g : LlmGateway)
    → IsWellKinded providers
    → AllMatch c (dispatch c request clock key new_tokens providers g).called
unfolding dispatch
dispatch-AllMatch c request clock key new_tokens providers g w =
    elim (Bool-cases (try_acquire new_tokens g).1) [
      | inr n ↦ rw (n, dispatch) tt
      | inl y ↦ elim (Result-cases (route c providers)) [
        | inr (e, q) ↦ rw (y, q, dispatch) tt
        | inl (p, q) ↦
            rw (y, q, dispatch)
              (answered-AllMatch c request clock key providers p.kind (p.infer request) _
                (route-matches c providers p w q))
      ]
    ]

under_constraint-AllMatch :
    (cache_key : LlmInferenceRequest → ProviderConstraint → String) (clock : ℕ → ℕ × ℕ)
    (new_tokens : ℕ) (providers : GatewayProviders) (request : LlmInferenceRequest) (g : LlmGateway)
    (c : ProviderConstraint)
    → IsWellKinded providers
    → AllMatch c (under_constraint cache_key clock new_tokens providers request g c).called
unfolding under_constraint
under_constraint-AllMatch cache_key clock new_tokens providers request g c w =
    elim (Option-cases (cached (key_for cache_key request c) g)) [
      | inr (hit, q) ↦ rw (q, under_constraint) tt
      | inl n ↦
          rw (n, under_constraint)
            (dispatch-AllMatch c request clock (key_for cache_key request c) new_tokens providers g
              w)
    ]

-- Where the local and the cloud provider are of their kind, a request whose constraint reads as `c`
-- calls only providers that `c` allows, the primary one and every failover target included.
pub process_routed-AllMatch :
    (cache_key : LlmInferenceRequest → ProviderConstraint → String) (clock : ℕ → ℕ × ℕ)
    (new_tokens : ℕ) (providers : GatewayProviders) (request : LlmInferenceRequest) (g : LlmGateway)
    (c : ProviderConstraint)
    → IsWellKinded providers
    → try_from request.provider_constraint ≡ ok c
    → AllMatch c (process_routed cache_key clock new_tokens providers request g).called
unfolding process_routed
process_routed-AllMatch cache_key clock new_tokens providers request g c w q =
    rw (q, process_routed)
      (under_constraint-AllMatch cache_key clock new_tokens providers request _ c w)
