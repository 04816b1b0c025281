-- ===== src/Policy/Engine/Evaluate.antt =====
-- `evaluate` of crates/policy-engine/src/engine.rs against conditions of its own.
use dds_llm_orchestrator.Base.{
  ℕ, ◌-◌, ◌+◌, ◌≤◌, ◌≡◌, ◌↔◌, ◌⊎◌, refl, true, false, ok, err, inl, inr, Result-cases, arith,
  String, List, [], ◌∷◌, All, some, select, ltb,
}
use dds_llm_orchestrator.Base.Dict.{mem, lookup}
use dds_llm_orchestrator.Policy.Engine.{
  SecurityLevel, InvalidSecurityLevel, try_from, rank, ToolCallRequest, allowed, denied,
  LocalPolicyEngine, check_rate_limit_at, occupied, evaluate, is_nil_set, rate_limit_window_ms,
}

-- A call passes exactly when its level is known and not above the engine's, its tool is on the white
-- list (or there is none) and not on the black list, and the rate limit of its requester lets it.
pub record Admits (e : LocalPolicyEngine) (r : ToolCallRequest) (now : ℕ) (l : SecurityLevel)
    : Type 0 where
  pub level : try_from r.security_level ≡ ok l
  pub within : rank l ≤ rank e.max_security_level
  pub listed : (e.allowed_tools ≡ []) ⊎ (mem r.tool_name e.allowed_tools ≡ true)
  pub unlisted : mem r.tool_name e.denied_tools ≡ false
  pub in_time : (check_rate_limit_at r.requester_id now e).1 ≡ true

is_nil_set-true : (ts : List String) → is_nil_set ts ≡ true → ts ≡ []
is_nil_set-true [] h = refl
is_nil_set-true (t ∷ ts) h = cc

evaluate-Admits :
    (r : ToolCallRequest) (now : ℕ) (e : LocalPolicyEngine) (l : SecurityLevel)
    → try_from r.security_level ≡ ok l
    → (evaluate r now e).1 ≡ allowed
    → Admits e r now l
unfolding evaluate
evaluate-Admits r now e l v h = ground (arith, is_nil_set-true e.allowed_tools)

evaluate_unknown :
    (r : ToolCallRequest) (now : ℕ) (e : LocalPolicyEngine) (x : InvalidSecurityLevel)
    → try_from r.security_level ≡ err x
    → (evaluate r now e).1 ≡ denied
unfolding evaluate
evaluate_unknown r now e x v = ground arith

Admits-evaluate :
    (r : ToolCallRequest) (now : ℕ) (e : LocalPolicyEngine) (l : SecurityLevel)
    → Admits e r now l
    → (evaluate r now e).1 ≡ allowed
unfolding evaluate
Admits-evaluate r now e l v = ground arith

-- A tool call is allowed exactly when it is admitted: at a known level within the engine's, listed,
-- not black-listed, and in time for the rate limit of its requester.
pub evaluate_exact :
    (r : ToolCallRequest) (now : ℕ) (e : LocalPolicyEngine)
    → ((evaluate r now e).1 ≡ allowed) ↔ ((l : SecurityLevel) × Admits e r now l)
evaluate_exact r now e = (
  λ h. elim (Result-cases (try_from r.security_level)) [
    | inl (l, v) ↦ (l, evaluate-Admits r now e l v h)
    | inr (x, v) ↦ cc (evaluate_unknown r now e x v)
  ],
  λ (l, v). Admits-evaluate r now e l v,
)

-- A call that is refused although its requester is within the rate limit leaves the engine as it
-- was: calls refused by level or list are not counted.
pub evaluate_refused_uncounted :
    (r : ToolCallRequest) (now : ℕ) (e : LocalPolicyEngine)
    → (evaluate r now e).1 ≡ denied
    → (check_rate_limit_at r.requester_id now e).1 ≡ true
    → (evaluate r now e).0 ≡ e
unfolding evaluate
evaluate_refused_uncounted r now e h c = ground arith

select_old :
    (now : ℕ) (h : List ℕ)
    → All (λ t. t + rate_limit_window_ms ≤ now) h
    → select (λ t. ltb (now - rate_limit_window_ms) t) h ≡ []
select_old now [] o = refl
select_old now (t ∷ h) (o, os) = ground (arith, select_old now h os)

-- An agent whose records are all a minute old is let through, whatever the limit.
pub check_rate_limit_at-quiet :
    (a : String) (now : ℕ) (e : LocalPolicyEngine) (h : List ℕ)
    → lookup a e.call_history ≡ some h
    → All (λ t. t + rate_limit_window_ms ≤ now) h
    → (check_rate_limit_at a now e).1 ≡ true
unfolding check_rate_limit_at occupied
check_rate_limit_at-quiet a now e h l o = ground (arith, select_old now h o)
