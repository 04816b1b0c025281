-- ===== src/Gateway/Routing/Memory.antt =====
-- `process_routed` of crates/llm-gateway/src/lib.rs and the result cache.
use dds_llm_orchestrator.Base.{
  ℕ, ◌≡◌, subst, refl, ap, sym, ◌∙◌, String, false, ok, err, arith, some, List, [], ◌∷◌, Result,
  Result-cases, inl, inr, Option-cases, Bool-cases, eq_refl,
}
use dds_llm_orchestrator.Gateway.Cache
use dds_llm_orchestrator.Gateway.Cache.Fifo.{lookup-put}
use dds_llm_orchestrator.Gateway.Cache.{LlmInferenceResult, LlmCache}
use dds_llm_orchestrator.Gateway.Routing.{
  Provider, ProviderConstraint, LlmInferenceRequest, FailoverTarget, GatewayProviders, GatewayError,
  LlmGateway, Reply, Cascade, try_from, route, failover, over_targets, answered, dispatch,
  under_constraint, process_routed, key_for, try_acquire, provider_name_from_constraint, conclude,
}

get-put :
    (key : String) (r : LlmInferenceResult) (c : LlmCache)
    → Cache.get key (Cache.put key r c) ≡ some r
unfolding Cache.get
get-put key r c = ground (arith, lookup-put key key r c, eq_refl key)

-- A successful reply has put its answer under the key.
abbrev Remembers : String → Reply → Type 0
Remembers key reply =
    (r : LlmInferenceResult) → reply.result ≡ ok r → Cache.get key reply.gateway.cache ≡ some r

conclude-Remembers :
    (key name : String) (k : Cascade) (providers : GatewayProviders) (g : LlmGateway)
    → Remembers key (conclude (some key) name k providers g)
conclude-Remembers key name k providers g r h = rw h (get-put key r g.cache)

over_targets-Remembers :
    (c : ProviderConstraint) (request : LlmInferenceRequest) (clock : ℕ → ℕ × ℕ) (key : String)
    (providers : GatewayProviders) (e : GatewayError) (g : LlmGateway) (ts : List FailoverTarget)
    → Remembers key (over_targets c request clock (some key) providers e g ts)
unfolding over_targets
over_targets-Remembers c request clock key providers e g [] = λ r h. cc
over_targets-Remembers c request clock key providers e g (t ∷ ts) =
    conclude-Remembers key (provider_name_from_constraint c) (failover c request clock 0 (t ∷ ts) e)
      providers g

answered-Remembers :
    (c : ProviderConstraint) (request : LlmInferenceRequest) (clock : ℕ → ℕ × ℕ) (key : String)
    (providers : GatewayProviders) (kind : Provider) (a : Result GatewayError LlmInferenceResult)
    (g : LlmGateway)
    → Remembers key (answered c request clock (some key) providers kind a g)
unfolding answered
answered-Remembers c request clock key providers kind (ok x) g =
    λ r h. ground (arith, get-put key x g.cache)
answered-Remembers c request clock key providers kind (err e) g =
    over_targets-Remembers c request clock key providers e _ _

dispatch-Remembers :
    (c : ProviderConstraint) (request : LlmInferenceRequest) (clock : ℕ → ℕ × ℕ) (key : String)
    (new_tokens : ℕ) (providers : GatewayProviders) (g : LlmGateway)
    → Remembers key (dispatch c request clock (some key) new_tokens providers g)
unfolding dispatch
dispatch-Remembers c request clock key new_tokens providers g =
    elim (Bool-cases (try_acquire new_tokens g).1) [
      | inr n ↦ rw (n, dispatch) (λ r h. cc)
      | inl y ↦ elim (Result-cases (route c providers)) [
        | inr (e, q) ↦ rw (y, q, dispatch) (λ r h. cc)
        | inl (p, q) ↦
            rw (y, q, dispatch)
              (answered-Remembers c request clock key providers p.kind (p.infer request) _)
      ]
    ]

-- The cache answers under the key what the reply said, but for the request's identity.
abbrev Repeats : String → Reply → Type 0
Repeats key reply =
    (r : LlmInferenceResult) (id : String)
    → reply.result ≡ ok r
    → (hit : LlmInferenceResult) × (Cache.get key reply.gateway.cache ≡ some hit)
      × (◌≡◌ {A = LlmInferenceResult} (record hit { request_id = id })
          (record r { request_id = id }))

key_for_present :
    (cache_key : LlmInferenceRequest → ProviderConstraint → String) (request : LlmInferenceRequest)
    (c : ProviderConstraint)
    → request.stream ≡ false
    → key_for cache_key request c ≡ some (cache_key request c)
unfolding key_for
key_for_present cache_key request c s = rw s

under_constraint-Repeats :
    (cache_key : LlmInferenceRequest → ProviderConstraint → String) (clock : ℕ → ℕ × ℕ)
    (new_tokens : ℕ) (providers : GatewayProviders) (request : LlmInferenceRequest) (g : LlmGateway)
    (c : ProviderConstraint)
    → request.stream ≡ false
    → Repeats
        (cache_key request c)
        (under_constraint cache_key clock new_tokens providers request g c)
unfolding under_constraint
under_constraint-Repeats cache_key clock new_tokens providers request g c s =
    elim (Option-cases (Cache.get (cache_key request c) g.cache)) [
      | inr (hit, q) ↦
          rw (key_for_present cache_key request c s, q, under_constraint)
            (λ r id h. (hit, q, ground arith))
      | inl n ↦
          rw (key_for_present cache_key request c s, n, under_constraint)
            (subst
              (λ key.
                Repeats (cache_key request c) (dispatch c request clock key new_tokens providers g))
              (sym (key_for_present cache_key request c s))
              (λ r id h. (
                r,
                dispatch-Remembers c request clock (cache_key request c) new_tokens providers g r h,
                refl,
              )))
    ]

abbrev IsAnsweredBy : LlmInferenceResult → ℕ → String → Reply → Type 0
IsAnsweredBy hit tokens id reply =
    (reply.result ≡ ok (record hit { request_id = id }))
    × (reply.called ≡ [])
    × (reply.gateway.tokens ≡ tokens)

under_constraint-hit :
    (cache_key : LlmInferenceRequest → ProviderConstraint → String) (clock : ℕ → ℕ × ℕ)
    (new_tokens : ℕ) (providers : GatewayProviders) (request : LlmInferenceRequest) (g : LlmGateway)
    (c : ProviderConstraint) (hit : LlmInferenceResult)
    → request.stream ≡ false
    → Cache.get (cache_key request c) g.cache ≡ some hit
    → IsAnsweredBy hit g.tokens request.request_id
        (under_constraint cache_key clock new_tokens providers request g c)
unfolding under_constraint
under_constraint-hit cache_key clock new_tokens providers request g c hit s q =
    rw (key_for_present cache_key request c s, q, under_constraint) (refl, refl, refl)

process_routed-Repeats :
    (cache_key : LlmInferenceRequest → ProviderConstraint → String) (clock : ℕ → ℕ × ℕ)
    (new_tokens : ℕ) (providers : GatewayProviders) (request : LlmInferenceRequest) (g : LlmGateway)
    (c : ProviderConstraint)
    → try_from request.provider_constraint ≡ ok c
    → request.stream ≡ false
    → Repeats (cache_key request c) (process_routed cache_key clock new_tokens providers request g)
unfolding process_routed
process_routed-Repeats cache_key clock new_tokens providers request g c q s =
    rw (q, process_routed)
      (under_constraint-Repeats cache_key clock new_tokens providers request _ c s)

process_routed-hit :
    (cache_key : LlmInferenceRequest → ProviderConstraint → String) (clock : ℕ → ℕ × ℕ)
    (new_tokens : ℕ) (providers : GatewayProviders) (request : LlmInferenceRequest) (g : LlmGateway)
    (c : ProviderConstraint) (hit : LlmInferenceResult)
    → try_from request.provider_constraint ≡ ok c
    → request.stream ≡ false
    → Cache.get (cache_key request c) g.cache ≡ some hit
    → IsAnsweredBy hit g.tokens request.request_id
        (process_routed cache_key clock new_tokens providers request g)
unfolding process_routed
process_routed-hit cache_key clock new_tokens providers request g c hit q s h =
    rw (q, process_routed)
      (under_constraint-hit cache_key clock new_tokens providers request _ c hit s h)

-- After a request that does not stream has been answered with a result, a second such request of
-- any constraint text that reads the same and with the same cache key, at any later time and
-- whatever the providers have become, is answered with the same result but for the request's own
-- identity: no provider is called for it and it takes no token.
pub process_routed_twice :
    (cache_key : LlmInferenceRequest → ProviderConstraint → String) (clock later : ℕ → ℕ × ℕ)
    (new_tokens accrued : ℕ) (providers changed : GatewayProviders)
    (request again : LlmInferenceRequest) (g : LlmGateway) (c : ProviderConstraint)
    (r : LlmInferenceResult)
    → try_from request.provider_constraint ≡ ok c
    → try_from again.provider_constraint ≡ ok c
    → request.stream ≡ false
    → again.stream ≡ false
    → cache_key again c ≡ cache_key request c
    → (process_routed cache_key clock new_tokens providers request g).result ≡ ok r
    → let first = (process_routed cache_key clock new_tokens providers request g).gateway in
      let second = process_routed cache_key later accrued changed again first in
      (second.result ≡ ok (record r { request_id = again.request_id }))
      × (second.called ≡ [])
      × (second.gateway.tokens ≡ first.tokens)
process_routed_twice cache_key clock later new_tokens accrued providers changed request again g c r
      q q' s s' same h =
    let (hit, found, alike) =
      process_routed-Repeats cache_key clock new_tokens providers request g c q s r again.request_id
        h in
    let (a, b, d) =
      process_routed-hit cache_key later accrued changed again
        (process_routed cache_key clock new_tokens providers request g).gateway c hit q' s'
        (ap
            (λ key.
              Cache.get key
                (process_routed cache_key clock new_tokens providers request g).gateway.cache)
            same
          ∙ found) in
    (a ∙ ap ok alike, b, d)
