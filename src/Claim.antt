-- ===== src/Claim.antt =====
-- crates/agent/src/claim.rs, and the specializations of crates/orch-common/src/lib.rs. The clock is
-- an argument; what the agent has already claimed is a predicate, as in `is_eligible_with`.
pub mod Laws
use dds_llm_orchestrator.Base.{
  ℕ, ◌-◌, ℤ, pos, negsuc, String, Bool, true, false, not, ◌&&◌, Result, ok, err, ltb, ◌==◌,
  if◌then◌else◌, str_eq, starts_with,
}
use dds_llm_orchestrator.Task.{Task}

pub data ModelSpecialization : Type 0 where
  text vision embedding transcription : ModelSpecialization

pub record UnknownEnumValue : Type 0 where
  pub value : ℤ

unfoldable pub try_from : ℤ → Result UnknownEnumValue ModelSpecialization
try_from (negsuc n) = err (record { value = negsuc n })
try_from (pos n) =
    if n == 0
    then ok text
    else if n == 1
    then ok vision
    else if n == 2
    then ok embedding
    else if n == 3
    then ok transcription
    else err (record { value = pos n })

unfoldable pub can_serve : ModelSpecialization → ModelSpecialization → Bool
can_serve text _ = true
can_serve vision text = true
can_serve vision vision = true
can_serve embedding embedding = true
can_serve transcription transcription = true
can_serve _ _ = false

unfoldable pub specialization_matches : ModelSpecialization → ℤ → Bool
unfolding try_from can_serve
specialization_matches s required = elim (try_from required) [
  | ok r ↦ can_serve s r
  | err e ↦ false
]

pub record ClaimConfig : Type 0 where
  pub agent_id : String
  pub specialization : ModelSpecialization
  pub target_agent_prefix : String

abbrev pub is_empty : String → Bool
is_empty s = str_eq s ""

abbrev pub max_age_ns : ℕ
max_age_ns = 10000000000

abbrev pub is_status : ℤ → ℕ → Bool
is_status (pos n) k = n == k
is_status (negsuc n) k = false

unfoldable pub is_eligible_with : Task → ClaimConfig → (String → Bool) → ℕ → Bool
is_eligible_with task config is_claimed now =
    if is_claimed task.task_id
    then false
    else if not (is_status task.status 0)
    then false
    else if ltb 0 task.created_at_ns && ltb max_age_ns (now - task.created_at_ns)
    then false
    else if not (specialization_matches config.specialization task.model_required)
    then false
    else if not (is_empty config.target_agent_prefix)
        && (not (is_empty task.target_agent)
            && not (starts_with task.target_agent config.target_agent_prefix))
    then false
    else true

unfoldable pub claim_task : Task → String → ℕ → Task
claim_task task agent_id now = record task {
  assigned_agent = agent_id;
  status = pos 1;
  assigned_at_ns = now;
}

unfoldable pub confirm_ownership : Task → String → Bool
confirm_ownership task agent_id = str_eq task.assigned_agent agent_id && is_status task.status 1
