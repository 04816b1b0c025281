-- ===== src/Tests/Policies.antt =====
-- Runs of crates/policy-engine/src/engine.rs and rules.rs.
use dds_llm_orchestrator.Base.{
  ℕ, ◌+◌, ◌≤◌, ◌≡◌, ◌↔◌, max, refl, arith, pos, String, false, some, List, [], ◌∷◌,
}
use dds_llm_orchestrator.Base.Dict.{mem, insert, lookup, remove}
use dds_llm_orchestrator.Policy.Cache.{PolicyCache, get_at, set_at, readable, set_at-get_at}
use dds_llm_orchestrator.Policy.Engine.{
  SecurityLevel, internal, ToolCallRequest, allowed, LocalPolicyEngine, evaluate,
}
use dds_llm_orchestrator.Policy.Engine.Window.{allowed_calls, allowed_calls_bounded}
use dds_llm_orchestrator.Policy.Engine.Evaluate.{Admits, evaluate_exact}
use dds_llm_orchestrator.Policy.Json.{
  Value, string, array, object, nil, cons, end, field, at, strings, get, get_field, is_object,
}
use dds_llm_orchestrator.Policy.Document.{
  PolicyDocument, deep_merge, is_allowed, check_tool_call, apply_delta,
}
use dds_llm_orchestrator.Policy.Document.Merge.{deep_merge-at_leaf}
use dds_llm_orchestrator.Policy.Document.Delta.{high_risk_path, add_high_risk_denies}

abbrev engine : LocalPolicyEngine
engine = record {
  max_security_level = internal;
  allowed_tools = [];
  denied_tools = "shell" ∷ [];
  max_calls_per_minute = 2;
  call_history = ("a1", 5 ∷ []) ∷ [];
}

abbrev schedule : List (String × ℕ)
schedule = ("a1", 60010) ∷ ("a2", 60020) ∷ ("a1", 60030) ∷ ("a1", 60040) ∷ []

allowed_calls_bounded_example :
    allowed_calls "a1" schedule engine ≤ max engine.max_calls_per_minute 1 + 2
allowed_calls_bounded_example =
    allowed_calls_bounded "a1" 60000 schedule engine (omega arith) (ground arith)

abbrev lookup_call : ToolCallRequest
lookup_call = record {
  call_id = "k1";
  request_id = "r1";
  requester_id = "a1";
  tool_name = "search";
  security_level = pos 1;
}

evaluate_exact_example :
    ((evaluate lookup_call 70 engine).1 ≡ allowed)
    ↔ ((l : SecurityLevel) × Admits engine lookup_call 70 l)
evaluate_exact_example = evaluate_exact lookup_call 70 engine

abbrev rules : Value
rules = object (
    field "rules"
      (object (
        field "tool_call"
          (object (
            field "agent_tool_allowlist"
              (object (field "a1" (array (cons (string "search") (cons (string "shell") nil))) end))
              end))
          end))
      end)

abbrev document : PolicyDocument
document = record { raw = rules }

abbrev risk : Value
risk = object (
    field "rules"
      (object (
        field "tool_call" (object (field "high_risk_tools" (array (cons (string "shell") nil)) end))
          end))
      end)

deep_merge-at_leaf_example :
    at high_risk_path (deep_merge rules risk) ≡ some (array (cons (string "shell") nil))
unfolding at get get_field is_object
deep_merge-at_leaf_example =
    deep_merge-at_leaf high_risk_path rules risk (array (cons (string "shell") nil))
      (refl, (refl, (refl, tt, tt), tt), tt) refl refl

add_high_risk_denies_example :
    is_allowed (check_tool_call "a1" "shell" (apply_delta "ADD_RULE" risk document).0) ≡ false
unfolding at get get_field mem strings
add_high_risk_denies_example =
    add_high_risk_denies "a1" "shell" document risk (cons (string "shell") nil)
      (refl, (refl, (refl, tt, tt), tt), tt) refl refl

abbrev old_policy : PolicyCache
old_policy = ("p1", record { value = string "old"; expires_at_ms = 40 }) ∷ []

set_at-get_at_example :
    (readable 50 (set_at "p1" (string "new") 30 30 old_policy) "p1" ≡ some (string "new"))
    × (readable 70 (get_at "p1" 50 old_policy).0 "p1" ≡ readable 70 old_policy "p1")
unfolding set_at get_at insert lookup remove
set_at-get_at_example = set_at-get_at "p1" "p1" (string "new") 30 30 50 70 old_policy (omega arith)
