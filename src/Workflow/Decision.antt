-- ===== src/Workflow/Decision.antt =====
-- The validator of a routing decision: crates/workflow-engine/src/decision.rs. A decision and an
-- intent have the fields that it reads; the texts of a rejection are left out.
pub mod Data
pub mod Admitted
unfoldable pub use Data.*
use dds_llm_orchestrator.Base.{
  ℕ, ℤ, pos, negsuc, ◌+◌, ◌-◌, String, Bool, true, false, not, ◌&&◌, ◌||◌, Option, none, some,
  Result, ok, err, List, [], ◌∷◌, ltb, leb, ◌==◌, if◌then◌else◌, str_eq, saturating_add, map,
  select, length, any,
}
use dds_llm_orchestrator.Base.Dict.{mem}
use dds_llm_orchestrator.Dag.{unknown}

module _ (F : Floats) where
  -- The sum of the probabilities and the profile of the first greatest one.
  unfoldable pub read_qos :
      List (QosProbability F) → List ℕ → F.Float → ℕ → F.Float → Result RejectReason (F.Float × ℕ)
  unfolding member finite_unit
  read_qos [] seen total best greatest = ok (total, best)
  read_qos (item ∷ items) seen total best greatest =
      let p = ordinal item.profile in
      let total' = F.add total item.probability in
      let raised = read_qos items (p ∷ seen) total' p item.probability in
      let kept = read_qos items (p ∷ seen) total' best greatest in
      if not (is_profile item.profile)
      then err qos_distribution
      else if member p seen
      then err qos_distribution
      else if not (finite_unit F item.probability)
      then err probability_out_of_range
      else if F.gt item.probability greatest
      then raised
      else kept

  unfoldable pub read_priorities : List F.Float → F.Float → Result RejectReason F.Float
  unfolding finite_unit
  read_priorities [] total = ok total
  read_priorities (p ∷ ps) total =
      let rest = read_priorities ps (F.add total p) in
      if finite_unit F p then rest else err probability_out_of_range

  -- The capabilities at the threshold, in the order of the decision.
  unfoldable pub read_capabilities :
      F.Float → List (CapabilityProbability F) → Result RejectReason (List String)
  unfolding finite_unit
  read_capabilities threshold [] = ok []
  read_capabilities threshold (c ∷ cs) =
      if finite_unit F c.probability && finite_unit F c.answer_confidence
      then (elim (read_capabilities threshold cs) [
        | ok ids ↦ ok (if F.ge c.probability threshold then c.capability_id ∷ ids else ids)
        | err r ↦ err r
      ])
      else err probability_out_of_range

  unfoldable pub best_priority : List F.Float → ℕ → ℕ → F.Float → ℕ
  best_priority [] i best greatest = best
  best_priority (p ∷ ps) i best greatest =
      let raised = best_priority ps (i + 1) i p in
      let kept = best_priority ps (i + 1) best greatest in if F.gt p greatest then raised else kept

  abbrev pub below_threshold : Option F.Float → F.Float → Bool
  below_threshold none c = false
  below_threshold (some t) c = F.lt c t

  -- Steps 9 and 10, and the verdict.
  unfoldable pub judge : RoutingDecision F → DecisionPolicy F → Verdict
  unfolding unknown duplicates read_capabilities best_priority
  judge d policy =
      let labels = map CapabilityProbability.capability_id d.capability_probabilities in
      let below = below_threshold policy.confidence_threshold d.confidence in
      check (none_of (unknown labels)) (capability_unknown 1) (
        check (none_of (duplicates [] labels)) capability_duplicate (
          with_loop (read_capabilities policy.capability_threshold d.capability_probabilities)
            λ required.
              check (not (below && policy.enforce_confidence)) confidence_below_threshold (
                accept required d.qos_profile
                  (priority_of (best_priority d.priority_probabilities 0 0 F.neg_infinity))
                  (is_shadow policy.calibration_pin d.calibration_revision) below)))

  -- Steps 7 and 8.
  unfoldable pub weigh : RoutingDecision F → DecisionPolicy F → Verdict
  unfolding finite_unit read_priorities judge
  weigh d policy =
      check
        (F.is_finite d.priority_score
          && (F.ge d.priority_score F.zero && F.ge F.two d.priority_score))
        priority_invalid
        (check (length d.priority_probabilities == 3) priority_invalid (
          with_loop (read_priorities d.priority_probabilities F.zero) λ total.
            check (not (F.off_one total)) priority_invalid (
              check
                (finite_unit F d.requires_planning_probability
                  && (finite_unit F d.confidence && finite_unit F d.answer_confidence))
                probability_out_of_range (judge d policy))))

  -- Step 6.
  unfoldable pub profile : RoutingDecision F → DecisionPolicy F → Verdict
  unfolding read_qos weigh
  profile d policy =
      with_loop (read_qos d.qos_probabilities [] F.zero 0 F.neg_infinity) λ (total, best).
        check (not (length d.qos_probabilities == 0 || F.off_one total)) qos_distribution (
          check (is_profile d.qos_profile) qos_distribution
            (check (ordinal d.qos_profile == best) qos_distribution (weigh d policy)))

  -- Step 5.
  unfoldable pub status : RoutingDecision F → DecisionPolicy F → Verdict
  unfolding profile
  status d policy =
      if is_zero d.decision_status
      then check (is_zero d.reason_code) status_reason (profile d policy)
      else check (not (is_zero d.reason_code)) status_reason (error d.reason_code)

  unfoldable pub validate :
      RoutingDecision F → WorkflowIntent → DecisionPolicy F → Option ℕ → Verdict
  unfolding status
  validate d intent policy now =
      check (intent.schema_version == 1 && (d.schema_version == 1)) schema_version (
        check
          (str_eq d.request_id intent.request_id
            && (str_eq d.workflow_id intent.workflow_id
                && (d.intent_revision == intent.intent_revision)))
          correlation
          (check
            ((d.questions_revision == intent.questions_revision)
              && ((d.policy_revision == intent.policy_revision)
                  && ((d.capability_catalog_revision == intent.capability_catalog_revision)
                      && (policy.catalog_revision == intent.capability_catalog_revision))))
            revision_pin
            (check
              (str_eq intent.checkpoint_revision ""
                || str_eq d.checkpoint_revision intent.checkpoint_revision)
              revision_pin
              (check
                (leb d.valid_until_ns (saturating_add intent.deadline_ns policy.skew_tolerance_ns)
                  && leb d.created_at_ns d.valid_until_ns)
                validity_window
                (check (is_current now policy.skew_tolerance_ns d.valid_until_ns) validity_window
                  (status d policy))))))
