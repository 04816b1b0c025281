-- ===== src/Gateway/Routing/Cascades.antt =====
-- Induction over the cascade of failover targets.
use dds_llm_orchestrator.Base.{
  ℕ, ◌+◌, ◌≡◌, true, false, ok, err, ltb, List, [], ◌∷◌, Bool-cases, inl, inr, Result-cases,
}
use dds_llm_orchestrator.Gateway.Breaker
use dds_llm_orchestrator.Gateway.Cache.{LlmInferenceResult}
use dds_llm_orchestrator.Gateway.Routing.{
  Cascade, FailoverTarget, GatewayError, LlmInferenceRequest, ProviderConstraint, skip, answered_by,
  failed_by, failover, failover_request, matches,
}

-- The target with its breaker asked at a time.
abbrev pub asked : ℕ → FailoverTarget → FailoverTarget
asked now t = record t { circuit_breaker = (Breaker.is_available now t.circuit_breaker).0 }

-- What holds of a target that is called: it takes part, it may serve the request, and its breaker
-- lets it be called.
pub record IsCalled (constraint : ProviderConstraint) (now : ℕ) (t : FailoverTarget) : Type 0 where
  pub takes_part : ltb 0 t.priority ≡ true
  pub may_serve : matches constraint t.provider.kind ≡ true
  pub granted : (Breaker.is_available now t.circuit_breaker).1 ≡ true

module _ {ℓ} (P : List FailoverTarget → Cascade → Type ℓ) (constraint : ProviderConstraint)
    (request : LlmInferenceRequest)
    (at_end : (e : GatewayError)
      → P [] (record { targets = []; result = err e; failures = 0; successes = 0; called = [] }))
    (passes : (t : FailoverTarget) (ts : List FailoverTarget) (c : Cascade)
      → P ts c
      → P (t ∷ ts) (skip t c))
    (refuses : (now : ℕ) (t : FailoverTarget) (ts : List FailoverTarget) (c : Cascade)
      → (Breaker.is_available now t.circuit_breaker).1 ≡ false
      → P ts c
      → P (t ∷ ts) (skip (asked now t) c))
    (answers : (now : ℕ) (t : FailoverTarget) (ts : List FailoverTarget) (r : LlmInferenceResult)
      → IsCalled constraint now t
      → t.provider.infer (failover_request request t) ≡ ok r
      → P (t ∷ ts) (answered_by (asked now t) ts r))
    (fails : (now at_failure : ℕ) (t : FailoverTarget) (ts : List FailoverTarget) (c : Cascade)
        (e : GatewayError)
      → IsCalled constraint now t
      → t.provider.infer (failover_request request t) ≡ err e
      → P ts c
      → P (t ∷ ts) (failed_by at_failure (asked now t) c)) where
  pub failover_induction :
      (clock : ℕ → ℕ × ℕ) (i : ℕ) (ts : List FailoverTarget) (e : GatewayError)
      → P ts (failover constraint request clock i ts e)
  unfolding failover
  failover_induction clock i [] e = at_end e
  failover_induction clock i (t ∷ ts) e =
      let now = (clock i).0 in
      elim (Bool-cases (ltb 0 t.priority)) [
        | inr n ↦ rw (n, failover) (passes t ts _ (failover_induction clock (i + 1) ts e))
        | inl y ↦ elim (Bool-cases (matches constraint t.provider.kind)) [
          | inr n ↦ rw (y, n, failover) (passes t ts _ (failover_induction clock (i + 1) ts e))
          | inl m ↦ elim (Bool-cases (Breaker.is_available (clock i).0 t.circuit_breaker).1) [
            | inr n ↦
                rw (y, m, n, failover)
                  (refuses now t ts _ n (failover_induction clock (i + 1) ts e))
            | inl g ↦
                let c : IsCalled constraint now t = record {
                  takes_part = y;
                  may_serve = m;
                  granted = g;
                } in
                elim (Result-cases (t.provider.infer (failover_request request t))) [
                  | inl (r, q) ↦ rw (y, m, g, q, failover) (answers now t ts r c q)
                  | inr (e', q) ↦
                      rw (y, m, g, q, failover)
                        (fails now (clock i).1 t ts _ e' c q
                          (failover_induction clock (i + 1) ts e'))
                ]
          ]
        ]
      ]
