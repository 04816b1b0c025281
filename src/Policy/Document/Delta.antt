-- ===== src/Policy/Document/Delta.antt =====
-- What a delta of the policy does to the decisions on tool calls.
use dds_llm_orchestrator.Base.{
  ◌≡◌, refl, String, true, false, not, ◌&&◌, ◌||◌, none, some, List, [], ◌∷◌, arith,
}
use dds_llm_orchestrator.Base.Dict.{mem}
use dds_llm_orchestrator.Policy.Json.{
  Value, object, end, field, array, Items, strings, get, is_object, at, IsMap,
}
use dds_llm_orchestrator.Policy.Document.{
  PolicyDocument, is_allowed, is_empty, no_fields, opt_get, rules_of, str_list, str_list_direct,
  check_tool_call, deep_merge, apply_delta,
}
use dds_llm_orchestrator.Policy.Document.Merge.{at-none, deep_merge-at_leaf}
use dds_llm_orchestrator.Policy.Document.Removal.{at-object}

-- The nested reads of a section are the reads of a path.
rules_of-at :
    (section k : String) (d : PolicyDocument)
    → opt_get k (rules_of section d) ≡ at ("rules" ∷ section ∷ k ∷ []) d.raw
unfolding at
rules_of-at section k d = ground arith

allowlist-at :
    (agent : String) (d : PolicyDocument)
    → opt_get agent (opt_get "agent_tool_allowlist" (rules_of "tool_call" d))
      ≡ at ("rules" ∷ "tool_call" ∷ "agent_tool_allowlist" ∷ agent ∷ []) d.raw
unfolding at
allowlist-at agent d = ground arith

-- The tools that the document lists at a path.
pub tools_at : List String → PolicyDocument → List String
tools_at p d = str_list_direct (at p d.raw)

abbrev pub allowlist_path : String → List String
allowlist_path agent = "rules" ∷ "tool_call" ∷ "agent_tool_allowlist" ∷ agent ∷ []

abbrev pub high_risk_path : List String
high_risk_path = "rules" ∷ "tool_call" ∷ "high_risk_tools" ∷ []

-- A tool call is allowed exactly when there is no policy, or when the agent's own list has the tool
-- and the list of high-risk tools has not.
pub check_tool_call_exact :
    (agent tool : String) (d : PolicyDocument)
    → is_allowed (check_tool_call agent tool d) ≡ (
        is_empty d
        || (mem tool (tools_at (allowlist_path agent) d)
            && not (mem tool (tools_at high_risk_path d))))
unfolding check_tool_call is_allowed tools_at str_list
check_tool_call_exact agent tool d =
    rw (← allowlist-at agent d, ← rules_of-at "tool_call" "high_risk_tools" d) (ground arith)

is_empty-get : (k : String) (v : Value) → (not (is_object v) || no_fields v) ≡ true → get k v ≡ none
unfolding get is_object
is_empty-get k (object end) h = refl
is_empty-get k (object (field j w fs)) h = cc
is_empty-get k _ h = refl

is_empty-at :
    (k : String) (p : List String) (d : PolicyDocument)
    → is_empty d ≡ true
    → at (k ∷ p) d.raw ≡ none
unfolding is_empty
is_empty-at k p d h = at-none k p d.raw (is_empty-get k d.raw h)

apply_delta-add :
    (d : PolicyDocument) (delta : Value)
    → is_object delta ≡ true
    → (apply_delta "ADD_RULE" delta d).0 ≡ record d { raw = deep_merge d.raw delta }
unfolding apply_delta
apply_delta-add d delta o = rw o

-- A tool on the high-risk list of a document is denied to everybody.
high_risk-denied :
    (agent tool : String) (d : PolicyDocument) (xs : Items)
    → at high_risk_path d.raw ≡ some (array xs)
    → mem tool (strings xs) ≡ true
    → is_allowed (check_tool_call agent tool d) ≡ false
unfolding tools_at str_list_direct
high_risk-denied agent tool d xs e h = ground (
  arith,
  check_tool_call_exact agent tool d,
  is_empty-at "rules" ("tool_call" ∷ "high_risk_tools" ∷ []) d,
)

-- No agent may call a tool that a delta put on the list of high-risk tools: the delta's list
-- replaces the document's, and it outweighs every allow list.
pub add_high_risk_denies :
    (agent tool : String) (d : PolicyDocument) (delta : Value) (xs : Items)
    → IsMap delta
    → at high_risk_path delta ≡ some (array xs)
    → mem tool (strings xs) ≡ true
    → is_allowed (check_tool_call agent tool (apply_delta "ADD_RULE" delta d).0) ≡ false
add_high_risk_denies agent tool d delta xs m e h =
    rw
      (apply_delta-add d delta
        (at-object "rules" ("tool_call" ∷ "high_risk_tools" ∷ []) delta (array xs) e))
      (high_risk-denied agent tool (record d { raw = deep_merge d.raw delta }) xs
        (deep_merge-at_leaf high_risk_path d.raw delta (array xs) m e (unfold is_object in refl)) h)
