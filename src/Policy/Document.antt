-- ===== src/Policy/Document.antt =====
-- crates/policy-engine/src/rules.rs.
pub mod Merge
pub mod Removal
pub mod Delta
use Prim.Native.String.{◌++◌, len, slice}
use dds_llm_orchestrator.Base.{
  ℕ, ◌-◌, ◌%◌, ℤ, pos, negsuc, String, Bool, true, false, not, ◌&&◌, ◌||◌, Option, none, some,
  Result, ok, err, List, [], ◌∷◌, any, str_eq, starts_with, ltb, if◌then◌else◌, u32_mod,
}
use dds_llm_orchestrator.Base.Dict.{mem}
use dds_llm_orchestrator.Policy.Json.{
  Value, null, bool, number, string, array, object, Number, int, float, Items, nil, cons, Fields,
  end, field, get_field, upsert, update, remove_field, get, is_object, is_null, as_str, as_i64,
  strings,
}
use dds_llm_orchestrator.Policy.Engine.{
  SecurityLevel, InvalidSecurityLevel, invalid_level, try_from, name,
}

pub data PolicyDecision : Type 0 where
  allowed : PolicyDecision
  allowed_no_policy : PolicyDecision
  denied : String → PolicyDecision

unfoldable pub is_allowed : PolicyDecision → Bool
is_allowed allowed = true
is_allowed allowed_no_policy = true
is_allowed (denied reason) = false

pub record PolicyDocument : Type 0 where
  pub raw : Value

unfoldable pub empty : PolicyDocument
empty = record { raw = object end }

-- `as i32` on an i64.
unfoldable pub to_i32 : ℤ → ℤ
to_i32 (pos n) = let m = n % u32_mod in if ltb m 2147483648 then pos m else negsuc (u32_mod - 1 - m)
to_i32 (negsuc n) =
    let m = n % u32_mod in if ltb m 2147483648 then negsuc m else pos (u32_mod - 1 - m)

abbrev pub opt_get : String → Option Value → Option Value
opt_get k none = none
opt_get k (some v) = get k v

unfoldable pub version : PolicyDocument → ℤ
unfolding to_i32
version d = elim (get "version" d.raw) [
  | none ↦ pos 0
  | some v ↦ elim (as_i64 v) [ none ↦ pos 0 | some z ↦ to_i32 z ]
]

abbrev pub no_fields : Value → Bool
no_fields (object end) = true
no_fields _ = false

unfoldable pub is_empty : PolicyDocument → Bool
unfolding is_object
is_empty d = not (is_object d.raw) || no_fields d.raw

-- `raw["version"] = version`: `none` is the panic on a document that is neither an object nor null.
unfoldable pub set_version : ℤ → Value → Option Value
set_version version (object fs) =
    some (object (upsert "version" (λ _. number (int version)) (number (int version)) fs))
set_version version null = some (object (field "version" (number (int version)) end))
set_version version _ = none

unfoldable pub has_agent_suffix : String → String → Bool
has_agent_suffix agent_id prefix =
    starts_with agent_id prefix && starts_with (slice agent_id (len prefix) (len agent_id)) "-"

unfoldable pub str_list_direct : Option Value → List String
unfolding strings
str_list_direct (some (array xs)) = strings xs
str_list_direct _ = []

unfoldable pub str_list : Option Value → String → List String
unfolding str_list_direct
str_list value key = str_list_direct (opt_get key value)

unfoldable pub is_falsy_rule : Value → Bool
unfolding is_null
is_falsy_rule v = is_null v || no_fields v

abbrev pub rules_of : String → PolicyDocument → Option Value
rules_of section d = opt_get section (get "rules" d.raw)

-- The loop that looks for the role of an agent: the policy of the first prefix that fits.
unfoldable pub role_policy : String → List String → Option Value → Option Value → Option Value
role_policy agent_id [] policies found = found
role_policy agent_id (prefix ∷ rest) policies found =
    if has_agent_suffix agent_id prefix
    then opt_get prefix policies
    else role_policy agent_id rest policies found

abbrev needs_role : Option Value → Bool
needs_role none = true
needs_role (some v) = is_falsy_rule v

-- The policy that counts for an agent, under the rules of the section.
unfoldable pub agent_policy : String → List String → Option Value → Option Value
unfolding role_policy is_falsy_rule
agent_policy agent_id allowed_agents llm_rules =
    let policies = opt_get "agent_policies" llm_rules in
    let own = opt_get agent_id policies in
    if needs_role own then role_policy agent_id allowed_agents policies own else own

unfoldable pub is_authorized : String → List String → Bool
is_authorized agent_id = any (λ a. str_eq agent_id a || has_agent_suffix agent_id a)

-- The text of `InvalidSecurityLevel`; `show` prints an i32.
abbrev level_error : (ℤ → String) → InvalidSecurityLevel → String
level_error show (invalid_level v) = "security_level inválido: " ++ (show v ++ "; esperado 0..=3")

unfoldable pub check_level : String → SecurityLevel → PolicyDocument → PolicyDecision
unfolding is_empty agent_policy is_authorized str_list name
check_level agent_id level d =
    let llm_rules = rules_of "llm_inference" d in
    let allowed_agents = str_list llm_rules "allowed_agents" in
    let levels =
      str_list (agent_policy agent_id allowed_agents llm_rules) "allowed_security_levels" in
    if is_empty d
    then allowed_no_policy
    else if not (is_authorized agent_id allowed_agents)
    then denied ("POLICY_DENIED: Agente " ++ (agent_id ++ " nao autorizado para inferencia"))
    else if not (mem (name level) levels)
    then denied
        ("POLICY_DENIED: Agente " ++ (agent_id ++ (" nao pode usar security_level=" ++ name level)))
    else allowed

unfoldable pub check_llm_request : (ℤ → String) → String → ℤ → PolicyDocument → PolicyDecision
unfolding check_level
check_llm_request show agent_id security_level d = elim (try_from security_level) [
  | ok level ↦ check_level agent_id level d
  | err e ↦ denied (level_error show e)
]

unfoldable pub check_tool_call : String → String → PolicyDocument → PolicyDecision
check_tool_call agent_id tool_name d =
    let tool_rules = rules_of "tool_call" d in
    let allowlist =
      str_list_direct (opt_get agent_id (opt_get "agent_tool_allowlist" tool_rules)) in
    if is_empty d
    then allowed_no_policy
    else if not (mem tool_name allowlist)
    then denied ("Tool " ++ (tool_name ++ (" nao permitida para agente " ++ agent_id)))
    else if mem tool_name (str_list tool_rules "high_risk_tools")
    then denied ("Tool " ++ (tool_name ++ " e HIGH RISK e sempre negada no MVP"))
    else allowed

unfoldable mutual
  pub deep_merge : Value → Value → Value
  deep_merge (object b) (object d) = object (merge_fields b d)
  deep_merge base delta = delta

  pub merge_fields : Fields → Fields → Fields
  merge_fields b end = b
  merge_fields b (field k v d) = merge_fields (upsert k (λ bv. deep_merge bv v) v b) d

unfoldable mutual
  pub remove_paths : Value → Value → Value
  remove_paths (object b) (object d) = object (remove_all b d)
  remove_paths base delta = base

  pub remove_all : Fields → Fields → Fields
  remove_all b end = b
  remove_all b (field k v d) =
      remove_all (if is_object v then update k (λ bv. remove_paths bv v) b else remove_field k b) d

pub data PolicyError : Type 0 where
  json : String → PolicyError
  invalid_delta : String → PolicyError
  stale_version : PolicyError
  data_space : String → PolicyError

unfoldable pub apply_delta :
    String → Value → PolicyDocument → PolicyDocument × Result PolicyError (Unit {0})
unfolding deep_merge remove_paths is_object
apply_delta operation delta d =
    if not (is_object delta)
    then (d, err (invalid_delta "rule_delta_json precisa ser um objeto JSON na raiz"))
    else if str_eq operation "ADD_RULE" || str_eq operation "UPDATE_RULE"
    then (record d { raw = deep_merge d.raw delta }, ok tt)
    else if str_eq operation "REMOVE_RULE"
    then (record d { raw = remove_paths d.raw delta }, ok tt)
    else (
      d,
      err (
          invalid_delta (
            "operação desconhecida: "
            ++ (operation ++ " (esperado ADD_RULE, REMOVE_RULE ou UPDATE_RULE)"))),
    )
