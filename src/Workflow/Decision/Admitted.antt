-- ===== src/Workflow/Decision/Admitted.antt =====
-- The checks of crates/workflow-engine/src/decision.rs on a decision.
use dds_llm_orchestrator.Base.{
  ℕ, ℤ, pos, ◌-◌, ◌≤◌, String, Bool, true, false, not, ◌&&◌, ◌||◌, ◌≡◌, ◌⊎◌, inl, inr, refl, sym,
  ◌∙◌, Option, none, some, Bool-cases, Result-cases, subst, Result, ok, err, List, [], ◌∷◌, leb,
  ◌==◌, if◌then◌else◌, str_eq, eq_iff, saturating_add, map, select, length, &&-split, arith,
}
use dds_llm_orchestrator.Dag.{unknown}
use dds_llm_orchestrator.Workflow.Decision.{
  Floats, RejectReason, Verdict, accept, WorkflowIntent, check, is_zero, is_profile, ordinal,
  none_of, priority_of, with_loop, duplicates, CapabilityProbability, RoutingDecision,
  DecisionPolicy, finite_unit, read_qos, read_priorities, read_capabilities, best_priority,
  is_shadow, judge, weigh, profile, status, validate, status_reason, error,
}

none_of-empty : (ls : List String) → none_of ls ≡ true → ls ≡ []
none_of-empty [] h = refl
none_of-empty (l ∷ ls) h = ground (arith, h)

is_zero-pos : (z : ℤ) → is_zero z ≡ true → z ≡ pos 0
is_zero-pos z h = ground (arith, h)

priority_of-one_of : (n : ℕ) → (priority_of n ≡ 1) ⊎ ((priority_of n ≡ 5) ⊎ (priority_of n ≡ 10))
priority_of-one_of n = ground arith

either_text :
    (pin revision : String)
    → (str_eq pin "" || str_eq revision pin) ≡ true
    → (pin ≡ "") ⊎ (revision ≡ pin)
either_text pin revision h = ground (arith, h, eq_iff pin "", eq_iff revision pin)

-- The argument of an accepting verdict goes through the checks.
module _ (required : List String) (chosen : ℤ) (priority : ℕ) (shadow below : Bool) where
  abbrev Accepts : Verdict → Type 0
  Accepts v = v ≡ accept required chosen priority shadow below

  check-ok :
      (b : Bool) (r : RejectReason) (rest : Verdict)
      → Accepts (check b r rest)
      → (b ≡ true) × Accepts rest
  check-ok true r rest h = (refl, h)
  check-ok false r rest h = ground (arith, h)

  with_loop-ok {ℓ} :
      {A : Type ℓ} (x : Result RejectReason A) (f : A → Verdict)
      → Accepts (with_loop x f)
      → (a : A) × (x ≡ ok a) × Accepts (f a)
  with_loop-ok (ok a) f h = (a, refl, h)
  with_loop-ok (err r) f h = ground (arith, h)

-- The capabilities that reach the threshold, in the order of the decision.
unfoldable pub at_threshold : (F : Floats) → F.Float → List (CapabilityProbability F) → List String
at_threshold F threshold cs =
    map CapabilityProbability.capability_id (select (λ c. F.ge c.probability threshold) cs)

-- The documented conditions on a decision that is accepted, and what the verdict says.
pub record IsAdmitted (F : Floats) (d : RoutingDecision F) (intent : WorkflowIntent)
    (policy : DecisionPolicy F) (now : ℕ) (required : List String) (chosen : ℤ) (priority : ℕ)
    (shadow below : Bool) : Type 0 where
  pub schema : (intent.schema_version ≡ 1) × (d.schema_version ≡ 1)
  pub correlated :
      (d.request_id ≡ intent.request_id)
      × (d.workflow_id ≡ intent.workflow_id)
      × (d.intent_revision ≡ intent.intent_revision)
  pub pinned :
      (d.questions_revision ≡ intent.questions_revision)
      × (d.policy_revision ≡ intent.policy_revision)
      × (d.capability_catalog_revision ≡ intent.capability_catalog_revision)
      × (policy.catalog_revision ≡ intent.capability_catalog_revision)
  pub checkpoint :
      (intent.checkpoint_revision ≡ "") ⊎ (d.checkpoint_revision ≡ intent.checkpoint_revision)
  pub window :
      (d.valid_until_ns ≤ saturating_add intent.deadline_ns policy.skew_tolerance_ns)
      × (d.created_at_ns ≤ d.valid_until_ns)
      × (now - policy.skew_tolerance_ns ≤ d.valid_until_ns)
  pub fine : (d.decision_status ≡ pos 0) × (d.reason_code ≡ pos 0)
  pub chosen_profile : (chosen ≡ d.qos_profile) × (is_profile d.qos_profile ≡ true)
  pub catalogued : unknown (map CapabilityProbability.capability_id d.capability_probabilities) ≡ []
  pub distinct :
      duplicates [] (map CapabilityProbability.capability_id d.capability_probabilities) ≡ []
  pub exact : required ≡ at_threshold F policy.capability_threshold d.capability_probabilities
  pub ranked : (priority ≡ 1) ⊎ ((priority ≡ 5) ⊎ (priority ≡ 10))
  pub calibrated : shadow ≡ false → policy.calibration_pin ≡ some d.calibration_revision
  pub enforced : policy.enforce_confidence ≡ true → below ≡ false

read_capabilities-at_threshold :
    (F : Floats) (threshold : F.Float) (cs : List (CapabilityProbability F)) (ids : List String)
    → read_capabilities F threshold cs ≡ ok ids
    → ids ≡ at_threshold F threshold cs
unfolding read_capabilities at_threshold
read_capabilities-at_threshold F threshold [] ids h = ground (arith, h)
read_capabilities-at_threshold F threshold (c ∷ cs) ids h =
    elim (Result-cases (read_capabilities F threshold cs)) [
      | inl (rest, e) ↦ ground (arith, h, e, read_capabilities-at_threshold F threshold cs rest e)
      | inr (r, e) ↦ ground (arith, h, e)
    ]

calibrated_pin :
    (pin : Option String) (revision : String) → is_shadow pin revision ≡ false → pin ≡ some revision
calibrated_pin none revision h = ground (arith, h)
calibrated_pin (some p) revision h = ground (arith, h, eq_iff revision p)

unenforced : (b e : Bool) → not (b && e) ≡ true → e ≡ true → b ≡ false
unenforced b e h h' = ground (arith, h, h')

accept-inj :
    (r r' : List String) (c c' : ℤ) (p p' : ℕ) (s s' b b' : Bool)
    → accept r c p s b ≡ accept r' c' p' s' b'
    → (r ≡ r') × (c ≡ c') × (p ≡ p') × (s ≡ s') × (b ≡ b')
accept-inj r r' c c' p p' s s' b b' h =
    (ground (arith, h), ground (arith, h), ground (arith, h), ground (arith, h), ground (arith, h))

module _ (F : Floats) (d : RoutingDecision F) (policy : DecisionPolicy F) (required : List String)
    (chosen : ℤ) (priority : ℕ) (shadow below : Bool) where
  abbrev Judged : Type 0
  Judged =
      (chosen ≡ d.qos_profile)
      × (unknown (map CapabilityProbability.capability_id d.capability_probabilities) ≡ [])
      × (duplicates [] (map CapabilityProbability.capability_id d.capability_probabilities) ≡ [])
      × (required ≡ at_threshold F policy.capability_threshold d.capability_probabilities)
      × ((priority ≡ 1) ⊎ ((priority ≡ 5) ⊎ (priority ≡ 10)))
      × (shadow ≡ false → policy.calibration_pin ≡ some d.calibration_revision)
      × (policy.enforce_confidence ≡ true → below ≡ false)

  judge-ok : Accepts required chosen priority shadow below (judge F d policy) → Judged
  unfolding judge
  judge-ok h =
      let ids = map CapabilityProbability.capability_id d.capability_probabilities in
      let (u, h1) = check-ok required chosen priority shadow below (none_of (unknown ids)) _ _ h in
      let (t, h2) =
        check-ok required chosen priority shadow below (none_of (duplicates [] ids)) _ _ h1 in
      let (found, e, h3) =
        with_loop-ok required chosen priority shadow below
          (read_capabilities F policy.capability_threshold d.capability_probabilities) _ h2 in
      let (g, h4) = check-ok required chosen priority shadow below _ _ _ h3 in
      let (a, b, c, x, y) = accept-inj _ _ _ _ _ _ _ _ _ _ h4 in
      (
        sym b,
        none_of-empty (unknown ids) u,
        none_of-empty (duplicates [] ids) t,
        sym a
            ∙ read_capabilities-at_threshold F policy.capability_threshold
                d.capability_probabilities found e,
        subst (λ n. (n ≡ 1) ⊎ ((n ≡ 5) ⊎ (n ≡ 10))) c
            (priority_of-one_of (best_priority F d.priority_probabilities 0 0 F.neg_infinity)),
        λ lit. calibrated_pin policy.calibration_pin d.calibration_revision (x ∙ lit),
        λ enforce. sym y ∙ unenforced _ policy.enforce_confidence g enforce,
      )

  weigh-ok : Accepts required chosen priority shadow below (weigh F d policy) → Judged
  unfolding weigh
  weigh-ok h =
      let (_, h1) =
        check-ok required chosen priority shadow below
          (F.is_finite d.priority_score
            && (F.ge d.priority_score F.zero && F.ge F.two d.priority_score))
          _ _ h in
      let (_, h2) =
        check-ok required chosen priority shadow below (length d.priority_probabilities == 3) _ _
          h1 in
      let (total, _, h3) =
        with_loop-ok required chosen priority shadow below
          (read_priorities F d.priority_probabilities F.zero) _ h2 in
      let (_, h4) = check-ok required chosen priority shadow below (not (F.off_one total)) _ _ h3 in
      let (_, h5) =
        check-ok required chosen priority shadow below
          (finite_unit F d.requires_planning_probability
            && (finite_unit F d.confidence && finite_unit F d.answer_confidence))
          _ _ h4 in
      judge-ok h5

  profile-ok :
      Accepts required chosen priority shadow below (profile F d policy)
      → (is_profile d.qos_profile ≡ true) × Judged
  unfolding profile
  profile-ok h =
      let (found, _, h1) =
        with_loop-ok required chosen priority shadow below
          (read_qos F d.qos_probabilities [] F.zero 0 F.neg_infinity) _ h in
      let (_, h2) =
        check-ok required chosen priority shadow below
          (not (length d.qos_probabilities == 0 || F.off_one (found.0))) _ _ h1 in
      let (p, h3) =
        check-ok required chosen priority shadow below (is_profile d.qos_profile) _ _ h2 in
      let (_, h4) =
        check-ok required chosen priority shadow below (ordinal d.qos_profile == found.1) _ _ h3 in
      (p, weigh-ok h4)

  status-ok :
      Accepts required chosen priority shadow below (status F d policy)
      → ((d.decision_status ≡ pos 0) × (d.reason_code ≡ pos 0))
        × (is_profile d.qos_profile ≡ true)
        × Judged
  unfolding status
  status-ok h = elim (Bool-cases (is_zero d.decision_status)) [
    | inl fine ↦
        let (r, h1) =
          check-ok required chosen priority shadow below (is_zero d.reason_code) status_reason
            (profile F d policy)
            (subst
              (λ b. Accepts required chosen priority shadow below (
                if b
                then check (is_zero d.reason_code) status_reason (profile F d policy)
                else check (not (is_zero d.reason_code)) status_reason (error d.reason_code)))
              fine h) in
        let (p, j) = profile-ok h1 in
        ((is_zero-pos d.decision_status fine, is_zero-pos d.reason_code r), p, j)
    | inr other ↦ ground (arith, h, other)
  ]

-- A decision that the validator accepts, when the clock is known, was made for the intent in every
-- identifier and revision, lies in its validity window, says that all is well, and names only
-- capabilities of the catalogue, each once; the capabilities that it then requires are exactly
-- those at the threshold, the priority is one of three, and it leaves the shadow only under the
-- calibration that the policy pins.
pub validate-IsAdmitted :
    (F : Floats) (d : RoutingDecision F) (intent : WorkflowIntent) (policy : DecisionPolicy F)
    (now : ℕ) (required : List String) (chosen : ℤ) (priority : ℕ) (shadow below : Bool)
    → validate F d intent policy (some now) ≡ accept required chosen priority shadow below
    → IsAdmitted F d intent policy now required chosen priority shadow below
unfolding validate
validate-IsAdmitted F d intent policy now required chosen priority shadow below h =
    let (a, h1) =
      check-ok required chosen priority shadow below
        (intent.schema_version == 1 && (d.schema_version == 1)) _ _ h in
    let (b, h2) =
      check-ok required chosen priority shadow below
        (str_eq d.request_id intent.request_id
          && (str_eq d.workflow_id intent.workflow_id
              && (d.intent_revision == intent.intent_revision)))
        _ _ h1 in
    let (c, h3) =
      check-ok required chosen priority shadow below
        ((d.questions_revision == intent.questions_revision)
          && ((d.policy_revision == intent.policy_revision)
              && ((d.capability_catalog_revision == intent.capability_catalog_revision)
                  && (policy.catalog_revision == intent.capability_catalog_revision))))
        _ _ h2 in
    let (k, h4) =
      check-ok required chosen priority shadow below
        (str_eq intent.checkpoint_revision ""
          || str_eq d.checkpoint_revision intent.checkpoint_revision)
        _ _ h3 in
    let (w, h5) =
      check-ok required chosen priority shadow below
        (leb d.valid_until_ns (saturating_add intent.deadline_ns policy.skew_tolerance_ns)
          && leb d.created_at_ns d.valid_until_ns)
        _ _ h4 in
    let (n, h6) =
      check-ok required chosen priority shadow below
        (leb (now - policy.skew_tolerance_ns) d.valid_until_ns) _ _ h5 in
    let (fine, p, j) = status-ok F d policy required chosen priority shadow below h6 in
    let (b1, b23) = &&-split _ _ b in
    let (b2, b3) = &&-split _ _ b23 in
    record {
      schema = (ground (arith, a), ground (arith, a));
      correlated = (
        (eq_iff d.request_id intent.request_id).0 b1,
        (eq_iff d.workflow_id intent.workflow_id).0 b2,
        ground (arith, b3),
      );
      pinned = (ground (arith, c), ground (arith, c), ground (arith, c), ground (arith, c));
      checkpoint = either_text intent.checkpoint_revision d.checkpoint_revision k;
      window = (ground (arith, w), ground (arith, w), ground (arith, n));
      fine = fine;
      chosen_profile = (j.0, p);
      catalogued = j.1;
      distinct = j.2;
      exact = j.3;
      ranked = j.4;
      calibrated = j.5;
      enforced = j.6;
    }
