-- ===== src/Workflow/QosMapper.antt =====
-- The mapper from the objective of a decision to the knobs of the application:
-- crates/workflow-engine/src/qos_mapper.rs. An intent has the fields that it reads. The product in
-- `estimate_cost` keeps 64 bits, as in a release build.
pub mod Choice
pub mod Budget
use dds_llm_orchestrator.Base.{
  ℕ, ℤ, pos, negsuc, ◌+◌, ◌*◌, ◌%◌, String, Bool, true, false, Option, none, some, List, [], ◌∷◌,
  leb, ◌==◌, if◌then◌else◌, str_eq, u64_max,
}
use dds_llm_orchestrator.Base.Dict.{Dict, lookup}
use dds_llm_orchestrator.Workflow.Decision.{Verdict, accept}
use Prim.Native.Nat.{◌/◌}

abbrev pub qi_balanced : ℤ
qi_balanced = pos 0

abbrev pub qi_critical : ℤ
qi_critical = pos 1

abbrev pub qi_stream_like : ℤ
qi_stream_like = pos 2

abbrev pub qi_low_cost : ℤ
qi_low_cost = pos 3

abbrev pub qi_failover : ℤ
qi_failover = pos 4

pub record PriceTable : Type 0 where
  pub policy_revision : ℕ
  pub per_1k_output : Dict ℕ

pub record FallbackTemplate : Type 0 where
  pub id : String
  pub objective : ℤ
  pub max_tokens : ℕ

pub record QosMapperPolicy : Type 0 where
  pub prices : PriceTable
  pub fallback_templates : List FallbackTemplate
  pub default_model : String
  pub low_cost_models : List String

pub record EffectiveQos : Type 0 where
  pub requested_objective : ℤ
  pub accepted_objective : ℤ
  pub admission_priority : ℕ
  pub streaming : Bool
  pub failover_retries : Bool
  pub model_constraint : Option String
  pub max_tokens : ℕ

pub data QosReject : Type 0 where
  unknown_price : String → ℕ → QosReject
  over_budget : ℕ → ℕ → QosReject
  non_zero_cost_with_zero_budget : ℕ → QosReject
  fallback_not_authorized : String → QosReject
  no_fallback_available not_accept : QosReject

pub data QosMapping : Type 0 where
  applied : EffectiveQos → QosMapping
  rejected : QosReject → QosMapping

pub record WorkflowIntent : Type 0 where
  pub max_tokens : ℕ
  pub max_cost_microunits : ℕ
  pub fallback_template_id : String

-- `q == pos n` of ordinals.
abbrev pub is_ordinal : ℕ → ℤ → Bool
is_ordinal k (pos n) = n == k
is_ordinal k (negsuc n) = false

unfoldable pub estimate_cost : String → ℕ → PriceTable → Option ℕ
unfolding lookup
estimate_cost model max_tokens prices = elim (lookup model prices.per_1k_output) [
  | none ↦ none
  | some p ↦ some ((max_tokens * p % (u64_max + 1) + 999) / 1000)
]

-- The cheaper of a model and the choice among those after it; the first of equals.
abbrev pub cheaper : ℕ → String → Option (ℕ × String) → Option (ℕ × String)
cheaper c m none = some (c, m)
cheaper c m (some (d, n)) = if leb c d then some (c, m) else some (d, n)

-- A model joins the choice when its cost is known and within the budget.
abbrev pub join : Option ℕ → ℕ → String → Option (ℕ × String) → Option (ℕ × String)
join none budget m best = best
join (some c) budget m best = if leb c budget then cheaper c m best else best

unfoldable pub pick : ℕ → ℕ → PriceTable → List String → Option (ℕ × String)
unfolding estimate_cost
pick max_tokens budget prices [] = none
pick max_tokens budget prices (m ∷ ms) =
    join (estimate_cost m max_tokens prices) budget m (pick max_tokens budget prices ms)

abbrev first_or_default : List String → String
first_or_default [] = "low-cost"
first_or_default (m ∷ ms) = m

-- Why no model was picked: the cost of the first one that is known, if any.
unfoldable pub low_cost_reject : ℕ → ℕ → QosMapperPolicy → List String → QosReject
unfolding estimate_cost
low_cost_reject max_tokens budget policy [] =
    unknown_price (first_or_default policy.low_cost_models) policy.prices.policy_revision
low_cost_reject max_tokens budget policy (m ∷ ms) =
    elim (estimate_cost m max_tokens policy.prices) [
      | some c ↦ over_budget c budget
      | none ↦ low_cost_reject max_tokens budget policy ms
    ]

abbrev pub effective : ℤ → ℕ → Option String → ℕ → EffectiveQos
effective objective priority model max_tokens = record {
  requested_objective = objective;
  accepted_objective = objective;
  admission_priority = if is_ordinal 1 objective then 10 else priority;
  streaming = is_ordinal 2 objective;
  failover_retries = is_ordinal 4 objective;
  model_constraint = model;
  max_tokens = max_tokens;
}

-- The arm of LOW_COST.
abbrev pub low_cost : Option (ℕ × String) → ℕ → WorkflowIntent → QosMapperPolicy → QosMapping
unfolding low_cost_reject
low_cost (some (c, m)) priority intent policy =
    applied (effective qi_low_cost priority (some m) intent.max_tokens)
low_cost none priority intent policy =
    rejected
      (low_cost_reject intent.max_tokens intent.max_cost_microunits policy policy.low_cost_models)

-- The test of the other objectives on a budget of nothing.
abbrev pub zero_budget : Option ℕ → QosMapperPolicy → QosMapping → QosMapping
zero_budget none policy rest =
    rejected (unknown_price policy.default_model policy.prices.policy_revision)
zero_budget (some c) policy rest =
    if c == 0 then rest else rejected (non_zero_cost_with_zero_budget c)

unfoldable pub map_objective : ℤ → ℕ → WorkflowIntent → QosMapperPolicy → QosMapping
unfolding pick estimate_cost low_cost_reject
map_objective objective priority intent policy =
    let outcome = applied (effective objective priority none intent.max_tokens) in
    if is_ordinal 3 objective
    then (low_cost
        (pick intent.max_tokens intent.max_cost_microunits policy.prices policy.low_cost_models)
        priority intent policy)
    else if intent.max_cost_microunits == 0
    then (zero_budget (estimate_cost policy.default_model intent.max_tokens policy.prices) policy
        outcome)
    else outcome

-- `map`
unfoldable pub map_verdict : Verdict → WorkflowIntent → QosMapperPolicy → QosMapping
unfolding map_objective
map_verdict (accept required qos_profile priority shadow below) intent policy =
    map_objective qos_profile priority intent policy
map_verdict _ intent policy = rejected not_accept

unfoldable pub find_template : String → List FallbackTemplate → Option FallbackTemplate
find_template requested [] = none
find_template requested (t ∷ ts) =
    if str_eq t.id requested then some t else find_template requested ts

abbrev pub unrequested : QosMapping → QosMapping
unrequested (applied e) = applied (record e { requested_objective = negsuc 0 })
unrequested (rejected r) = rejected r

abbrev pub min : ℕ → ℕ → ℕ
min a b = if leb a b then a else b

abbrev pub fall_back : Option FallbackTemplate → WorkflowIntent → QosMapperPolicy → QosMapping
unfolding map_objective
fall_back none intent policy = rejected (fallback_not_authorized intent.fallback_template_id)
fall_back (some tpl) intent policy = unrequested (
    map_objective tpl.objective 5
      (record intent { max_tokens = min tpl.max_tokens intent.max_tokens }) policy)

unfoldable pub map_fallback : WorkflowIntent → QosMapperPolicy → QosMapping
unfolding find_template map_objective
map_fallback intent policy =
    if str_eq intent.fallback_template_id ""
    then rejected no_fallback_available
    else fall_back (find_template intent.fallback_template_id policy.fallback_templates) intent
        policy
