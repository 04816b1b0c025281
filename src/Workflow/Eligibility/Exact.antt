-- ===== src/Workflow/Eligibility/Exact.antt =====
-- The eligibility test of crates/workflow-engine/src/eligibility.rs against conditions of its
-- own.
use dds_llm_orchestrator.Base.{
  ℕ, pos, ◌≤◌, ◌<◌, String, Bool, true, false, ◌≡◌, ◌↔◌, refl, ap, ◌∙◌, Option, none, some, Result,
  ok, err, List, [], ◌∷◌, eq_iff, arith, All,
}
use dds_llm_orchestrator.Base.Dict.{mem}
use dds_llm_orchestrator.Dag.{unknown}
use dds_llm_orchestrator.Workflow.Eligibility.{
  AgentCapabilities, AgentState, NotEligible, require, missing_capability, validate_announcement,
  check_required, check_registry, sequel, is_eligible,
}

-- Conditions on an announcement.
pub record IsAnnounced (caps : AgentCapabilities) (required : List String) (now_ns : ℕ)
    : Type 0 where
  pub protocol : caps.adaptive_protocol_version ≡ 1
  pub catalog : caps.capability_catalog_revision ≡ 1
  pub labels : unknown caps.capabilities ≡ []
  pub current : now_ns ≤ caps.valid_until_ns
  pub covers : All (λ r. mem r caps.capabilities ≡ true) required

-- Conditions on the registry, where the agent stands in it.
unfoldable pub IsFree : Option AgentState → Option String → Type 0
IsFree none model = Unit
IsFree (some reg) model =
    (reg.health ≡ pos 2)
    × (reg.slots_busy < reg.slots_total)
    × ((m : String) → model ≡ some m → reg.model ≡ m)

require-ok :
    (b : Bool) (e : NotEligible) (rest : Result NotEligible (Unit {0}))
    → require b e rest ≡ ok tt
    → (b ≡ true) × (rest ≡ ok tt)
require-ok true e rest h = (refl, h)
require-ok false e rest h = ground (arith, h)

check_required-ok :
    (announced rs : List String) (rest : Result NotEligible (Unit {0}))
    → check_required announced rs rest ≡ ok tt
    → All (λ r. mem r announced ≡ true) rs × (rest ≡ ok tt)
unfolding check_required
check_required-ok announced [] rest h = (tt, h)
check_required-ok announced (r ∷ rs) rest h =
    let (b, h') = require-ok (mem r announced) (missing_capability r) _ h in
    let (all, last) = check_required-ok announced rs rest h' in ((b, all), last)

check_registry-ok :
    (registry : Option AgentState) (model : Option String)
    → check_registry registry model ≡ ok tt
    → IsFree registry model
unfolding IsFree
check_registry-ok none model h = tt
check_registry-ok (some reg) none h =
    (ground (arith, h), ground (arith, h), λ m e. ground (arith, e))
check_registry-ok (some reg) (some m) h =
    (ground (arith, h), ground (arith, h), λ x e. ground (arith, h, e, eq_iff reg.model m))

announced-ok :
    (caps : AgentCapabilities) (now_ns : ℕ)
    → validate_announcement caps now_ns ≡ ok tt
    → (caps.adaptive_protocol_version ≡ 1)
      × (caps.capability_catalog_revision ≡ 1)
      × (unknown caps.capabilities ≡ [])
      × (now_ns ≤ caps.valid_until_ns)
unfolding validate_announcement
announced-ok caps now_ns h =
    (ground (arith, h), ground (arith, h), ground (arith, h), ground (arith, h))

announced-all :
    (caps : AgentCapabilities) (required : List String) (now_ns : ℕ)
    → IsAnnounced caps required now_ns
    → validate_announcement caps now_ns ≡ ok tt
unfolding validate_announcement
announced-all caps required now_ns a = ground (arith, a.protocol, a.catalog, a.labels, a.current)

check_required-all :
    (announced rs : List String) (rest : Result NotEligible (Unit {0}))
    → All (λ r. mem r announced ≡ true) rs
    → check_required announced rs rest ≡ rest
unfolding check_required
check_required-all announced [] rest a = refl
check_required-all announced (r ∷ rs) rest a =
    rw (check_required, a.0) (check_required-all announced rs rest a.1)

check_registry-free :
    (registry : Option AgentState) (model : Option String)
    → IsFree registry model
    → check_registry registry model ≡ ok tt
unfolding IsFree
check_registry-free none model f = refl
check_registry-free (some reg) none f = ground (arith, f.0, f.1)
check_registry-free (some reg) (some m) f = ground (arith, f.0, f.1, f.2 m refl, eq_iff reg.model m)

sequel-ok :
    (x rest : Result NotEligible (Unit {0})) → sequel x rest ≡ ok tt → (x ≡ ok tt) × (rest ≡ ok tt)
sequel-ok (ok t) rest h = (refl, h)
sequel-ok (err e) rest h = ground (arith, h)

-- An agent is eligible exactly when it has an announcement that holds now, in the versions of the
-- protocol and the catalogue, with every required capability, and the registry, where it knows the
-- agent, has it healthy with a free slot and with the model that is asked for.
pub is_eligible_exact :
    (caps : AgentCapabilities) (registry : Option AgentState) (required : List String)
    (model : Option String) (now_ns : ℕ)
    → (is_eligible (some caps) registry required model now_ns ≡ ok tt)
      ↔ (IsAnnounced caps required now_ns × IsFree registry model)
unfolding is_eligible
is_eligible_exact caps registry required model now_ns = (
  λ h.
      let (v, r) = sequel-ok (validate_announcement caps now_ns) _ h in
      let (all, last) =
        check_required-ok caps.capabilities required (check_registry registry model) r in
      let (p, c, u, t) = announced-ok caps now_ns v in
      (
        record { protocol = p; catalog = c; labels = u; current = t; covers = all },
        check_registry-ok registry model last,
      ),
  λ (a, f).
      ap (λ x. sequel x (check_required caps.capabilities required (check_registry registry model)))
        (announced-all caps required now_ns a)
      ∙ check_required-all caps.capabilities required (check_registry registry model) a.covers
      ∙ check_registry-free registry model f,
)
