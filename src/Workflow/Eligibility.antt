-- ===== src/Workflow/Eligibility.antt =====
-- Which agents may claim a task of the workflow: crates/workflow-engine/src/eligibility.rs. The
-- announcement and the registry's row have the fields that it reads.
pub mod Exact
use dds_llm_orchestrator.Base.{
  ℕ, ℤ, pos, negsuc, ◌≤◌, ◌<◌, String, Bool, true, false, not, ◌&&◌, ◌≡◌, ◌↔◌, refl, ap, ◌∙◌,
  Option, none, some, Result, ok, err, List, [], ◌∷◌, ltb, leb, ◌==◌, if◌then◌else◌, str_eq, eq_iff,
  arith, All,
}
use dds_llm_orchestrator.Base.Dict.{mem}
use dds_llm_orchestrator.Dag.{unknown}

pub record AgentCapabilities : Type 0 where
  pub adaptive_protocol_version : ℕ
  pub capability_catalog_revision : ℕ
  pub capabilities : List String
  pub valid_until_ns : ℕ

pub record AgentState : Type 0 where
  pub health : ℤ
  pub slots_busy : ℕ
  pub slots_total : ℕ
  pub model : String

pub data NotEligible : Type 0 where
  no_announcement : NotEligible
  announcement_regression : ℕ → ℕ → NotEligible
  protocol_version catalog_revision expired no_slots : ℕ → ℕ → NotEligible
  unknown_labels : List String → NotEligible
  missing_capability model_unavailable : String → NotEligible
  unhealthy : ℤ → NotEligible

abbrev pub adaptive_protocol_version_v1 : ℕ
adaptive_protocol_version_v1 = 1

-- The ordinal of AH_HEALTHY.
abbrev pub is_healthy : ℤ → Bool
is_healthy (pos n) = n == 2
is_healthy (negsuc n) = false

-- The revision of `catalog_v1`.
abbrev pub catalog_v1_revision : ℕ
catalog_v1_revision = 1

-- An early return unless the test passes.
abbrev pub require :
    Bool → NotEligible → Result NotEligible (Unit {0}) → Result NotEligible (Unit {0})
require true e rest = rest
require false e rest = err e

abbrev known_labels : List String → Result NotEligible (Unit {0}) → Result NotEligible (Unit {0})
known_labels [] rest = rest
known_labels (l ∷ ls) rest = err (unknown_labels (l ∷ ls))

unfoldable pub validate_announcement : AgentCapabilities → ℕ → Result NotEligible (Unit {0})
unfolding unknown
validate_announcement caps now_ns =
    require (caps.adaptive_protocol_version == adaptive_protocol_version_v1)
      (protocol_version caps.adaptive_protocol_version adaptive_protocol_version_v1)
      (require (caps.capability_catalog_revision == catalog_v1_revision)
        (catalog_revision caps.capability_catalog_revision catalog_v1_revision)
        (known_labels (unknown caps.capabilities)
          (require (leb now_ns caps.valid_until_ns) (expired caps.valid_until_ns now_ns) (ok tt))))

-- The first capability that is required and not announced.
unfoldable pub check_required :
    List String → List String → Result NotEligible (Unit {0}) → Result NotEligible (Unit {0})
unfolding mem
check_required announced [] rest = rest
check_required announced (r ∷ rs) rest =
    require (mem r announced) (missing_capability r) (check_required announced rs rest)

abbrev check_model : Option String → AgentState → Result NotEligible (Unit {0})
check_model none reg = ok tt
check_model (some m) reg = require (str_eq reg.model m) (model_unavailable m) (ok tt)

abbrev pub check_registry : Option AgentState → Option String → Result NotEligible (Unit {0})
check_registry none model = ok tt
check_registry (some reg) model = require (is_healthy reg.health) (unhealthy reg.health) (
    require (ltb reg.slots_busy reg.slots_total) (no_slots reg.slots_busy reg.slots_total)
      (check_model model reg))

abbrev pub sequel :
    Result NotEligible (Unit {0}) → Result NotEligible (Unit {0}) → Result NotEligible (Unit {0})
sequel (ok _) rest = rest
sequel (err e) rest = err e

unfoldable pub is_eligible :
    Option AgentCapabilities
    → Option AgentState
    → List String
    → Option String
    → ℕ
    → Result NotEligible (Unit {0})
unfolding validate_announcement check_required
is_eligible none registry required model now_ns = err no_announcement
is_eligible (some caps) registry required model now_ns =
    sequel (validate_announcement caps now_ns)
      (check_required caps.capabilities required (check_registry registry model))
