-- ===== src/Workflow/Decision/Data.antt =====
-- What the validator of crates/workflow-engine/src/decision.rs reads and answers, and its tests.
use dds_llm_orchestrator.Base.{
  ℕ, ℤ, pos, negsuc, ◌-◌, String, Bool, true, false, not, ◌&&◌, Option, none, some, Result, ok, err,
  List, [], ◌∷◌, ltb, leb, ◌==◌, if◌then◌else◌, str_eq,
}
use dds_llm_orchestrator.Base.Dict.{mem}

-- The operations on `f64` that the validator uses.
pub record Floats : Type 1 where
  pub Float : Type 0
  pub zero : Float
  pub one : Float
  pub two : Float
  pub neg_infinity : Float
  pub add : Float → Float → Float
  pub is_finite : Float → Bool
  pub gt : Float → Float → Bool
  pub ge : Float → Float → Bool
  pub lt : Float → Float → Bool
  -- `(x - 1.0).abs() > 1e-6`
  pub off_one : Float → Bool

pub data RejectReason : Type 0 where
  schema_version correlation revision_pin validity_window status_reason qos_distribution :
      RejectReason
  probability_out_of_range priority_invalid capability_duplicate : RejectReason
  confidence_below_threshold : RejectReason
  capability_unknown : ℕ → RejectReason

pub data Verdict : Type 0 where
  accept : List String → ℤ → ℕ → Bool → Bool → Verdict
  error : ℤ → Verdict
  reject : RejectReason → Verdict

pub record WorkflowIntent : Type 0 where
  pub schema_version : ℕ
  pub request_id : String
  pub workflow_id : String
  pub intent_revision : ℕ
  pub questions_revision : ℕ
  pub policy_revision : ℕ
  pub capability_catalog_revision : ℕ
  pub checkpoint_revision : String
  pub deadline_ns : ℕ

-- An early return unless the test passes.
abbrev pub check : Bool → RejectReason → Verdict → Verdict
check true r rest = rest
check false r rest = reject r

-- Tests on the ordinals of the wire.
abbrev pub is_zero : ℤ → Bool
is_zero (pos n) = n == 0
is_zero (negsuc n) = false

abbrev pub is_profile : ℤ → Bool
is_profile (pos n) = ltb n 5
is_profile (negsuc n) = false

abbrev pub ordinal : ℤ → ℕ
ordinal (pos n) = n
ordinal (negsuc n) = 0

unfoldable pub member : ℕ → List ℕ → Bool
member n [] = false
member n (k ∷ ks) = if k == n then true else member n ks

-- `Catalog::duplicates`
unfoldable pub duplicates : List String → List String → List String
unfolding mem
duplicates seen [] = []
duplicates seen (l ∷ ls) =
    let again = duplicates seen ls in
    let fresh = duplicates (l ∷ seen) ls in if mem l seen then l ∷ again else fresh

abbrev pub none_of : List String → Bool
none_of [] = true
none_of (l ∷ ls) = false

-- `[1i32, 5, 10][best_prio]`
abbrev pub priority_of : ℕ → ℕ
priority_of n = if n == 0 then 1 else if n == 1 then 5 else 10

-- The outcome of a loop that may reject.
abbrev pub with_loop {ℓ} : {A : Type ℓ} → Result RejectReason A → (A → Verdict) → Verdict
with_loop (ok a) f = f a
with_loop (err r) f = reject r

abbrev pub is_shadow : Option String → String → Bool
is_shadow none revision = true
is_shadow (some pin) revision = not (str_eq revision pin)

abbrev pub is_current : Option ℕ → ℕ → ℕ → Bool
is_current none skew valid_until = true
is_current (some now) skew valid_until = leb (now - skew) valid_until

module _ (F : Floats) where
  pub record QosProbability : Type 0 where
    pub profile : ℤ
    pub probability : F.Float

  pub record CapabilityProbability : Type 0 where
    pub capability_id : String
    pub probability : F.Float
    pub answer_confidence : F.Float

  pub record RoutingDecision : Type 0 where
    pub schema_version : ℕ
    pub request_id : String
    pub decision_id : String
    pub workflow_id : String
    pub intent_revision : ℕ
    pub questions_revision : ℕ
    pub policy_revision : ℕ
    pub capability_catalog_revision : ℕ
    pub checkpoint_revision : String
    pub calibration_revision : String
    pub created_at_ns : ℕ
    pub valid_until_ns : ℕ
    pub decision_status : ℤ
    pub reason_code : ℤ
    pub qos_profile : ℤ
    pub qos_probabilities : List QosProbability
    pub priority_score : F.Float
    pub priority_probabilities : List F.Float
    pub requires_planning_probability : F.Float
    pub confidence : F.Float
    pub answer_confidence : F.Float
    pub capability_probabilities : List CapabilityProbability
    pub payload_hash : String

  pub record DecisionPolicy : Type 0 where
    pub catalog_revision : ℕ
    pub capability_threshold : F.Float
    pub confidence_threshold : Option F.Float
    pub enforce_confidence : Bool
    pub skew_tolerance_ns : ℕ
    pub calibration_pin : Option String

  unfoldable pub finite_unit : F.Float → Bool
  finite_unit p = F.is_finite p && (F.ge p F.zero && F.ge F.one p)
