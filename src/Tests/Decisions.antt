-- ===== src/Tests/Decisions.antt =====
-- Runs of the decisions, the eligibility and the mapper of the workflow engine.
use dds_llm_orchestrator.Base.{
  ℕ, pos, arith, ◌<◌, ◌⊎◌, ◌+◌, ◌≡◌, ◌↔◌, refl, String, true, false, not, Option, none, some,
  Result, ok, err, List, [], ◌∷◌, ltb, leb, ◌==◌,
}
use dds_llm_orchestrator.Base.Dict.{mem, lookup}
use dds_llm_orchestrator.Dag.{unknown}
use dds_llm_orchestrator.Workflow.Decision.{
  Floats, RoutingDecision, WorkflowIntent, DecisionPolicy, finite_unit, member, duplicates,
  read_qos, read_priorities, read_capabilities, best_priority, judge, weigh, profile, status,
  validate,
}
use dds_llm_orchestrator.Workflow.Decision.Admitted.{IsAdmitted, validate-IsAdmitted}
use dds_llm_orchestrator.Workflow.Eligibility.{AgentCapabilities, AgentState, is_eligible}
use dds_llm_orchestrator.Workflow.Eligibility.Exact.{IsAnnounced, IsFree, is_eligible_exact}
use dds_llm_orchestrator.Dag.{PlanCandidate}
use dds_llm_orchestrator.Workflow.Journal.Calls.{empty_journal}
use dds_llm_orchestrator.Workflow.Runtime.{
  RuntimeConfig, WfRuntime, EngineRuntime, Message, on_decision,
}
use dds_llm_orchestrator.Workflow.Runtime.Intake.{Recorded, on_decision-Recorded}
use dds_llm_orchestrator.Workflow.QosMapper as Mapper
use dds_llm_orchestrator.Workflow.QosMapper.{
  is_ordinal, QosMapperPolicy, estimate_cost, pick, map_objective, effective, qi_low_cost,
}
use dds_llm_orchestrator.Workflow.QosMapper.Budget.{IsFrugal, CostsNothing, map_objective-IsWithin}

-- Probabilities in millionths.
abbrev pub millionths : Floats
millionths = record {
  Float = ℕ;
  zero = 0;
  one = 1000000;
  two = 2000000;
  neg_infinity = 0;
  add = ◌+◌;
  is_finite = λ x. true;
  gt = λ x y. ltb y x;
  ge = λ x y. leb y x;
  lt = ltb;
  off_one = λ x. not (x == 1000000);
}

abbrev pub decision : RoutingDecision millionths
decision = record {
  schema_version = 1;
  request_id = "r";
  decision_id = "d";
  payload_hash = "h";
  workflow_id = "w";
  intent_revision = 1;
  questions_revision = 1;
  policy_revision = 1;
  capability_catalog_revision = 1;
  checkpoint_revision = "c1";
  calibration_revision = "k1";
  created_at_ns = 100;
  valid_until_ns = 900;
  decision_status = pos 0;
  reason_code = pos 0;
  qos_profile = pos 3;
  qos_probabilities =
      record { profile = pos 0; probability = 300000 }
      ∷ record { profile = pos 3; probability = 700000 }
      ∷ [];
  priority_score = 1000000;
  priority_probabilities = 200000 ∷ 700000 ∷ 100000 ∷ [];
  requires_planning_probability = 0;
  confidence = 800000;
  answer_confidence = 800000;
  capability_probabilities =
      record { capability_id = "research"; probability = 900000; answer_confidence = 500000 }
      ∷ record { capability_id = "translation"; probability = 100000; answer_confidence = 500000 }
      ∷ [];
}

abbrev intent : WorkflowIntent
intent = record {
  schema_version = 1;
  request_id = "r";
  workflow_id = "w";
  intent_revision = 1;
  questions_revision = 1;
  policy_revision = 1;
  capability_catalog_revision = 1;
  checkpoint_revision = "c1";
  deadline_ns = 1000;
}

abbrev policy : DecisionPolicy millionths
policy = record {
  catalog_revision = 1;
  capability_threshold = 500000;
  confidence_threshold = some 900000;
  enforce_confidence = false;
  skew_tolerance_ns = 5;
  calibration_pin = some "k1";
}

validate-IsAdmitted_example :
    IsAdmitted millionths decision intent policy 500 ("research" ∷ []) (pos 3) 5 false true
unfolding validate status profile weigh judge read_qos read_priorities read_capabilities
    best_priority finite_unit member duplicates mem unknown
validate-IsAdmitted_example =
    validate-IsAdmitted millionths decision intent policy 500 ("research" ∷ []) (pos 3) 5 false true
      refl

abbrev announced : AgentCapabilities
announced = record {
  adaptive_protocol_version = 1;
  capability_catalog_revision = 1;
  capabilities = "research" ∷ "translation" ∷ [];
  valid_until_ns = 900;
}

abbrev registered : AgentState
registered = record { health = pos 2; slots_busy = 1; slots_total = 2; model = "m" }

is_eligible_exact_example :
    (is_eligible (some announced) (some registered) ("research" ∷ []) (some "m") 500 ≡ ok tt)
    ↔ (IsAnnounced announced ("research" ∷ []) 500 × IsFree (some registered) (some "m"))
is_eligible_exact_example =
    is_eligible_exact announced (some registered) ("research" ∷ []) (some "m") 500

-- The default policy of the mapper, and an intent that can pay for some of its models.
abbrev prices : QosMapperPolicy
prices = record {
  prices = record {
    policy_revision = 1;
    per_1k_output = ("gemma-4-12b-it", 100) ∷ ("tiny-fast", 10) ∷ ("free-local", 0) ∷ [];
  };
  fallback_templates = record { id = "direct-summarize"; objective = pos 0; max_tokens = 256 } ∷ [];
  default_model = "gemma-4-12b-it";
  low_cost_models = "tiny-fast" ∷ "free-local" ∷ [];
}

abbrev paid : Mapper.WorkflowIntent
paid = record {
  max_tokens = 1000;
  max_cost_microunits = 10;
  fallback_template_id = "direct-summarize";
}

map_objective-IsWithin_example :
    let e = effective qi_low_cost 5 (some "free-local") 1000 in
    (e.accepted_objective ≡ qi_low_cost)
    × (e.max_tokens ≡ 1000)
    × (((qi_low_cost ≡ qi_low_cost)
          × (m : String) × (e.model_constraint ≡ some m)
          × IsFrugal 1000 10 prices.prices prices.low_cost_models m)
        ⊎ ((is_ordinal 3 qi_low_cost ≡ false)
            × ((0 < paid.max_cost_microunits)
                ⊎ CostsNothing 1000 prices.prices prices.default_model)))
unfolding map_objective pick estimate_cost lookup
map_objective-IsWithin_example =
    map_objective-IsWithin qi_low_cost 5 paid prices
      (effective qi_low_cost 5 (some "free-local") 1000)
      (omega arith, (omega arith, (omega arith, tt))) refl

abbrev pub config : RuntimeConfig millionths
config = record {
  decision_policy = policy;
  mapper_policy = prices;
  failover_enabled = true;
  per_attempt_microunits = 1;
  default_task_deadline_ns = 600;
}

abbrev pub waiting : WfRuntime
waiting = record {
  intent = record {
    request_id = "r";
    workflow_id = "w";
    schema_version = 1;
    intent_revision = 1;
    command = pos 0;
    expected_plan_revision = 0;
    prompt = "p";
    created_at_ns = 1;
    deadline_ns = 1000;
    policy_revision = 1;
    questions_revision = 1;
    capability_catalog_revision = 1;
    checkpoint_revision = "c1";
    max_tokens = 1000;
    max_cost_microunits = 10;
    fallback_template_id = "direct-summarize";
  };
  graph = record { workflow_id = "w"; plan_revision = 0; nodes = [] };
  state = [];
  prompts = [];
  failover = true;
  terminal = false;
  failed_reason = none;
  qos = none;
  state_rev = 0;
}

abbrev runtime : EngineRuntime
runtime = record {
  store = empty_journal;
  workflows = ("w", waiting) ∷ [];
  task_index = [];
  written = [];
}

-- A planner that is out of order; the journal is written before it is asked.
abbrev no_planner : String → String → Result String PlanCandidate
no_planner wf prompt = err "offline"

abbrev open_space : List Message → Message → Option String
open_space before msg = none

on_decision-Recorded_example :
    Recorded millionths config decision 500 runtime
      (on_decision millionths no_planner open_space config decision 500 500 runtime).0.store
on_decision-Recorded_example =
    on_decision-Recorded millionths no_planner open_space config decision 500 500 runtime
