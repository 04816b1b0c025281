-- ===== src/Policy/Engine.antt =====
-- crates/policy-engine/src/engine.rs. The clock `now_ms()` is an argument; log lines are left out.
pub mod Window
pub mod Evaluate
use dds_llm_orchestrator.Base.{
  ℕ, ◌-◌, ℤ, pos, negsuc, String, Bool, true, false, not, ◌&&◌, Result, ok, err, leb, ltb, ◌==◌,
  if◌then◌else◌, Option, none, some, List, [], ◌∷◌, ◌++◌, length, select,
}
use dds_llm_orchestrator.Base.Dict.{Dict, lookup, insert, remove, retain, mem}

abbrev pub rate_limit_window_ms : ℕ
rate_limit_window_ms = 60000

pub data SecurityLevel : Type 0 where
  public internal confidential restricted : SecurityLevel

pub data InvalidSecurityLevel : Type 0 where
  invalid_level : ℤ → InvalidSecurityLevel

unfoldable pub try_from : ℤ → Result InvalidSecurityLevel SecurityLevel
try_from (negsuc n) = err (invalid_level (negsuc n))
try_from (pos n) =
    if n == 0
    then ok public
    else if n == 1
    then ok internal
    else if n == 2
    then ok confidential
    else if n == 3
    then ok restricted
    else err (invalid_level (pos n))

-- The derived order of the levels.
unfoldable pub rank : SecurityLevel → ℕ
rank public = 0
rank internal = 1
rank confidential = 2
rank restricted = 3

unfoldable pub name : SecurityLevel → String
name public = "PUBLIC"
name internal = "INTERNAL"
name confidential = "CONFIDENTIAL"
name restricted = "RESTRICTED"

pub data ToolCallStatus : Type 0 where
  pending allowed denied executing completed failed : ToolCallStatus

-- The fields of the IDL type that the engine reads.
pub record ToolCallRequest : Type 0 where
  pub call_id : String
  pub request_id : String
  pub requester_id : String
  pub tool_name : String
  pub security_level : ℤ

pub record LocalPolicyEngine : Type 0 where
  pub max_security_level : SecurityLevel
  pub allowed_tools : List String
  pub denied_tools : List String
  pub max_calls_per_minute : ℕ
  pub call_history : Dict (List ℕ)

unfoldable pub new : SecurityLevel → List String → List String → ℕ → LocalPolicyEngine
new max_security_level allowed_tools denied_tools max_calls_per_minute = record {
  max_security_level = max_security_level;
  allowed_tools = allowed_tools;
  denied_tools = denied_tools;
  max_calls_per_minute = max_calls_per_minute;
  call_history = [];
}

-- `Default`
unfoldable pub default_engine : LocalPolicyEngine
unfolding new
default_engine = new confidential [] [] 60

unfoldable pub agent_identity : ToolCallRequest → String
agent_identity request = request.requester_id

-- What a visit leaves in the slot of an occupied entry, given the records that are still in the
-- window; `none` takes the entry out.
unfoldable pub occupied : ℕ → ℕ → Bool → List ℕ → Option (List ℕ) × Bool
occupied max now had_records [] = if had_records then (none, true) else (some (now ∷ []), true)
occupied max now had_records (t ∷ ts) =
    if leb max (length (t ∷ ts))
    then (some (t ∷ ts), false)
    else (some ((t ∷ ts) ++ now ∷ []), true)

abbrev pub is_nil : List ℕ → Bool
is_nil [] = true
is_nil (t ∷ ts) = false

-- One visit to the entry of an agent.
unfoldable pub visit : ℕ → ℕ → Option (List ℕ) → Option (List ℕ) × Bool
unfolding occupied
visit max now none = (some [], true)
visit max now (some history) =
    occupied max now (not (is_nil history))
      (select (λ t. ltb (now - rate_limit_window_ms) t) history)

abbrev pub put_slot : String → Option (List ℕ) → Dict (List ℕ) → Dict (List ℕ)
put_slot k none m = remove k m
put_slot k (some h) m = insert k h m

unfoldable pub check_rate_limit_at : String → ℕ → LocalPolicyEngine → LocalPolicyEngine × Bool
unfolding visit
check_rate_limit_at agent_id now e =
    let (slot, allows) = visit e.max_calls_per_minute now (lookup agent_id e.call_history) in
    (record e { call_history = put_slot agent_id slot e.call_history }, allows)

abbrev pub conclude : LocalPolicyEngine × Bool → LocalPolicyEngine × ToolCallStatus
conclude (e, allows) = (e, if allows then allowed else denied)

abbrev pub is_nil_set : List String → Bool
is_nil_set [] = true
is_nil_set (t ∷ ts) = false

unfoldable pub evaluate :
    ToolCallRequest → ℕ → LocalPolicyEngine → LocalPolicyEngine × ToolCallStatus
unfolding try_from rank agent_identity
evaluate request now e = elim (try_from request.security_level) [
  | err x ↦ (e, denied)
  | ok level ↦
      if ltb (rank e.max_security_level) (rank level)
      then (e, denied)
      else if not (is_nil_set e.allowed_tools) && not (mem request.tool_name e.allowed_tools)
      then (e, denied)
      else if mem request.tool_name e.denied_tools
      then (e, denied)
      else conclude (check_rate_limit_at (agent_identity request) now e)
]

-- How many agents have records; entries that were only primed do not count.
unfoldable pub tracked_agents : LocalPolicyEngine → ℕ
tracked_agents e = length (retain (λ k h. not (is_nil h)) e.call_history)
