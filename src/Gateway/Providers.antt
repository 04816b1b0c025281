-- ===== src/Gateway/Providers.antt =====
-- The providers of crates/llm-gateway/src/lib.rs, the constraints on them and the requests they answer.
-- A provider is a parameter: what its `infer` answers. Each target has a breaker of its own, as the
-- orchestrator builds them.
use dds_llm_orchestrator.Base.{
  ℕ, String, Bool, true, false, Option, none, some, Result, ok, err, List, [], str_eq,
  if◌then◌else◌, ℤ,
}
use dds_llm_orchestrator.Base.Dict.{Dict, lookup, insert}
use dds_llm_orchestrator.Gateway.Breaker.{CircuitBreaker}
use dds_llm_orchestrator.Gateway.Cache.{LlmInferenceResult}

pub data Provider : Type 0 where
  local cloud : Provider

pub data ProviderConstraint : Type 0 where
  any_provider local_only cloud_only : ProviderConstraint

pub data GatewayError : Type 0 where
  rate_limited provider_unavailable inference_failed timeout invalid_provider_constraint :
      String → GatewayError

unfoldable pub matches : ProviderConstraint → Provider → Bool
matches any_provider p = true
matches local_only local = true
matches cloud_only cloud = true
matches _ _ = false

unfoldable pub as_literal : ProviderConstraint → String
as_literal any_provider = "ANY"
as_literal local_only = "LOCAL_ONLY"
as_literal cloud_only = "CLOUD_ONLY"

unfoldable pub try_from : String → Result GatewayError ProviderConstraint
try_from value =
    if str_eq value "ANY"
    then ok any_provider
    else if str_eq value "LOCAL_ONLY"
    then ok local_only
    else if str_eq value "CLOUD_ONLY"
    then ok cloud_only
    else err (invalid_provider_constraint value)

-- The f32 `temperature` is kept as its bit pattern.
pub record LlmInferenceRequest : Type 0 where
  pub request_id : String
  pub task_id : String
  pub agent_id : String
  pub model_name : String
  pub messages_json : String
  pub temperature : ℕ
  pub max_tokens : ℕ
  pub stream : Bool
  pub security_level : ℤ
  pub provider_constraint : String
  pub created_at_ns : ℕ

pub record LlmProvider : Type 0 where
  pub kind : Provider
  pub infer : LlmInferenceRequest → Result GatewayError LlmInferenceResult

pub record FailoverTarget : Type 0 where
  pub provider : LlmProvider
  pub model : String
  pub circuit_breaker : CircuitBreaker
  pub priority : ℕ

pub record GatewayProviders : Type 0 where
  pub local_provider : Option LlmProvider
  pub cloud_provider : Option LlmProvider
  pub failover_configs : Dict (List FailoverTarget)

unfoldable pub get_failover_targets : String → GatewayProviders → List FailoverTarget
get_failover_targets provider g = elim (lookup provider g.failover_configs) [
  | none ↦ []
  | some ts ↦ ts
]

unfoldable pub register_failover :
    String → List FailoverTarget → GatewayProviders → GatewayProviders
register_failover provider targets g = record g {
  failover_configs = insert provider targets g.failover_configs;
}

abbrev ok_or : Option LlmProvider → String → Result GatewayError LlmProvider
ok_or none text = err (provider_unavailable text)
ok_or (some p) text = ok p

abbrev or_else : Option LlmProvider → Option LlmProvider → Option LlmProvider
or_else none q = q
or_else (some p) q = some p

unfoldable pub route : ProviderConstraint → GatewayProviders → Result GatewayError LlmProvider
route local_only g = ok_or g.local_provider "provider local indisponível"
route cloud_only g = ok_or g.cloud_provider "provider cloud indisponível"
route any_provider g =
    ok_or (or_else g.local_provider g.cloud_provider) "nenhum provider configurado"

unfoldable pub provider_name_from_constraint : ProviderConstraint → String
provider_name_from_constraint local_only = "local"
provider_name_from_constraint any_provider = "local"
provider_name_from_constraint cloud_only = "cloud"
