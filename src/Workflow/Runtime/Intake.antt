-- ===== src/Workflow/Runtime/Intake.antt =====
-- Decisions and the journal: `on_decision` of crates/workflow-engine/src/runtime.rs.
use dds_llm_orchestrator.Base.{
  ℕ, ℤ, ◌+◌, u32, String, Bool, true, false, ◌≡◌, ◌⊎◌, inl, inr, refl, sym, ap, ◌∙◌, Option, none,
  some, Result, ok, err, ◌>>◌, pure, List, [], ◌&&◌,
}
use dds_llm_orchestrator.Base.Dict.{lookup}
use dds_llm_orchestrator.Base.Keeps.{Keeps, Keeps-then, keeps_lookup}
use dds_llm_orchestrator.Dag.{PlanCandidate, Stop, validate_candidate}
use dds_llm_orchestrator.Workflow.Journal.{admit_workflow}
use dds_llm_orchestrator.Workflow.Journal.Rows.{
  Journal, JournalError, AdmitOutcome, admitted, replay, conflict,
}
use dds_llm_orchestrator.Workflow.Graph.{graph_from_candidate}
use dds_llm_orchestrator.Workflow.Engine.Recovery.{recover}
use dds_llm_orchestrator.Workflow.Decision.{
  Floats, RoutingDecision, Verdict, accept, error, reject, validate,
}
use dds_llm_orchestrator.Workflow.Decision.Admitted.{IsAdmitted, validate-IsAdmitted}
use dds_llm_orchestrator.Workflow.QosMapper.{
  EffectiveQos, QosMapping, applied, rejected, map_verdict,
}
use dds_llm_orchestrator.Workflow.QosMapper.Budget.{
  IsMapped, IsFallback, map_objective-IsMapped, map_fallback-IsFallback,
}
use dds_llm_orchestrator.Workflow.Runtime.{
  WorkflowIntent, WfRuntime, Message, RuntimeError, EngineRuntime, RuntimeConfig, Step,
  for_decision, for_mapper, set_workflow, pending_intent_for, mapping_of, admission, journal_reply,
  for_plan, prompts_of, plan_written, planner, write, publish_state, publish_plan, adopt, if_valid,
  plan_workflow, on_outcome, on_mapping, on_verdict, on_found, on_decision,
}

abbrev Holds : Journal → EngineRuntime → Type 0
Holds j rt = rt.store ≡ j

module _ (F : Floats) (plan : String → String → Result String PlanCandidate)
    (refuse : List Message → Message → Option String) (j : Journal) where
  write-Keeps : (msg : Message) → Keeps (Holds j) (write F plan refuse msg)
  unfolding write
  write-Keeps msg rt h = keeps_lookup (Holds j) (refuse rt.written msg) _ _ h λ e. h

  set_workflow-Keeps : (wf : String) (r : WfRuntime) → Keeps (Holds j) (set_workflow wf r)
  set_workflow-Keeps wf r rt h = h

  publish_state-Keeps :
      (wf : String) (status : ℕ) → Keeps (Holds j) (publish_state F plan refuse wf status)
  unfolding publish_state
  publish_state-Keeps wf status rt h = keeps_lookup (Holds j) (lookup wf rt.workflows) _ _ h λ r.
      let r' : WfRuntime = record r { state_rev = u32 (r.state_rev + 1) } in
      Keeps-then (Holds j) (set_workflow wf r') (write F plan refuse _) (set_workflow-Keeps wf r')
        (write-Keeps _) rt h

  adopt-Keeps :
      (cfg : RuntimeConfig F) (wf : String) (r : WfRuntime) (e : EffectiveQos)
      (cand : PlanCandidate)
      → Keeps (Holds j) (adopt F plan refuse cfg wf r e cand)
  unfolding adopt publish_plan
  adopt-Keeps cfg wf r e cand rt h =
      let graph = graph_from_candidate r.intent.workflow_id 1 cand in
      let r' : WfRuntime = record r {
        graph = graph;
        state = recover rt.store graph;
        prompts = prompts_of cand.nodes [];
        failover = e.failover_retries && cfg.failover_enabled;
        qos = some e;
      } in
      let set = set_workflow wf r' in
      let sent = write F plan refuse (plan_written wf cand) in
      let shown = publish_state F plan refuse wf 3 in
      Keeps-then (Holds j) (set >> sent >> shown) (pure true)
        (Keeps-then (Holds j) (set >> sent) shown
          (Keeps-then (Holds j) set sent (set_workflow-Keeps wf r') (write-Keeps _))
          (publish_state-Keeps wf 3))
        (λ s k. k) rt h

  if_valid-Keeps :
      (v : Result Stop (Unit {0})) (rest : Step Bool)
      → Keeps (Holds j) rest
      → Keeps (Holds j) (if_valid F plan refuse v rest)
  if_valid-Keeps (ok _) rest k rt h = k rt h
  if_valid-Keeps (err s) rest k rt h = h

  planned-Keeps :
      (cfg : RuntimeConfig F) (wf : String) (r : WfRuntime) (e : EffectiveQos) (now : ℕ)
      (o : Result String PlanCandidate) (rt : EngineRuntime)
      → Holds j rt
      → Holds j
          (elim o as (λ _. EngineRuntime × Result RuntimeError Bool) [
            | err t ↦ (rt, err (planner t))
            | ok cand ↦
                if_valid F plan refuse
                  (validate_candidate cand (for_plan r.intent) now)
                  (adopt F plan refuse cfg wf r e cand)
                  rt
          ]).0
  planned-Keeps cfg wf r e now (ok cand) rt h =
      if_valid-Keeps _ _ (adopt-Keeps cfg wf r e cand) rt h
  planned-Keeps cfg wf r e now (err t) rt h = h

  on_outcome-Keeps :
      (cfg : RuntimeConfig F) (wf : String) (r : WfRuntime) (e : EffectiveQos) (now : ℕ)
      (o : AdmitOutcome)
      → Keeps (Holds j) (on_outcome F plan refuse cfg wf r e now o)
  unfolding on_outcome plan_workflow
  on_outcome-Keeps cfg wf r e now conflict rt h = h
  on_outcome-Keeps cfg wf r e now replay rt h = h
  on_outcome-Keeps cfg wf r e now admitted rt h =
      planned-Keeps cfg wf r e now (plan r.intent.workflow_id r.intent.prompt) rt h

-- The verdict on a decision against the intent that it names.
abbrev pub verdict_on :
    (F : Floats) → RuntimeConfig F → RoutingDecision F → WorkflowIntent → ℕ → Verdict
unfolding validate
verdict_on F cfg d i now = validate F d (for_decision i) cfg.decision_policy (some now)

abbrev pub is_accepted : Verdict → Bool
is_accepted (accept required chosen priority shadow below) = true
is_accepted _ = false

-- What lets a workflow into the journal: a decision that the validator accepts out of the shadow,
-- with its objective mapped, or a fallback of the policy for a decision that it does not accept.
pub data License (F : Floats) (cfg : RuntimeConfig F) (d : RoutingDecision F) (i : WorkflowIntent)
    (now : ℕ) : Type 0 where
  by_decision :
      (required : List String) (chosen : ℤ) (priority : ℕ) (below : Bool) (e : EffectiveQos)
      → IsAdmitted F d (for_decision i) cfg.decision_policy now required chosen priority false below
      → IsMapped chosen priority (for_mapper i) cfg.mapper_policy e
      → License F cfg d i now
  by_fallback :
      (e : EffectiveQos)
      → is_accepted (verdict_on F cfg d i now) ≡ false
      → IsFallback (for_mapper i) cfg.mapper_policy e
      → License F cfg d i now

-- The journal after a decision: as it was, or as an admission of the named intent leaves it, which
-- the policies allow.
unfoldable pub Recorded :
    (F : Floats) → RuntimeConfig F → RoutingDecision F → ℕ → EngineRuntime → Journal → Type 0
Recorded F cfg d now rt j =
    (j ≡ rt.store)
    ⊎ ((wf : String) × (r : WfRuntime) × (pending_intent_for d.request_id rt.workflows
          ≡ some (wf, r))
        × (j ≡ (admit_workflow (admission r.intent d (verdict_on F cfg d r.intent now)) rt.store).0)
        × License F cfg d r.intent now)

module _ (F : Floats) (plan : String → String → Result String PlanCandidate)
    (refuse : List Message → Message → Option String) (cfg : RuntimeConfig F)
    (d : RoutingDecision F) (now later : ℕ) where
  admitted_store :
      (wf : String) (r : WfRuntime) (e : EffectiveQos) (rt : EngineRuntime)
      (x : Journal × Result JournalError AdmitOutcome)
      → (elim (journal_reply rt x).1 as (λ _. EngineRuntime × Result RuntimeError Bool) [
        | ok o ↦ on_outcome F plan refuse cfg wf r e later o (journal_reply rt x).0
        | err t ↦ ((journal_reply rt x).0, err t)
      ]).0.store
        ≡ x.0
  admitted_store wf r e rt (j, ok o) =
      on_outcome-Keeps F plan refuse j cfg wf r e later o (record rt { store = j }) refl
  admitted_store wf r e rt (j, err t) = refl

  refused_store :
      (wf : String) (r : WfRuntime) (rt : EngineRuntime)
      → ((set_workflow wf r >> publish_state F plan refuse wf 5 >> pure false) rt).0.store
        ≡ rt.store
  refused_store wf r rt =
      let set = set_workflow wf r in
      let shown = publish_state F plan refuse wf 5 in
      Keeps-then (Holds rt.store) (set >> shown) (pure false)
        (Keeps-then (Holds rt.store) set shown (set_workflow-Keeps F plan refuse rt.store wf r)
          (publish_state-Keeps F plan refuse rt.store wf 5))
        (λ s k. k) rt refl

  mapping-Recorded :
      (wf : String) (r : WfRuntime) (rt : EngineRuntime) (v : Verdict) (q : QosMapping)
      → pending_intent_for d.request_id rt.workflows ≡ some (wf, r)
      → verdict_on F cfg d r.intent now ≡ v
      → ((e : EffectiveQos) → q ≡ applied e → License F cfg d r.intent now)
      → Recorded F cfg d now rt (on_mapping F plan refuse cfg wf r d v later q rt).0.store
  unfolding on_mapping Recorded
  mapping-Recorded wf r rt v (rejected cause) found same licensed = inl (refused_store wf _ rt)
  mapping-Recorded wf r rt v (applied e) found same licensed = inr (
    wf,
    r,
    found,
    admitted_store wf r e rt _
        ∙ ap (λ u. (admit_workflow (admission r.intent d u) rt.store).0) (sym same),
    licensed e refl,
  )

  verdict-Recorded :
      (wf : String) (r : WfRuntime) (rt : EngineRuntime) (v : Verdict)
      → pending_intent_for d.request_id rt.workflows ≡ some (wf, r)
      → verdict_on F cfg d r.intent now ≡ v
      → Recorded F cfg d now rt (on_verdict F plan refuse cfg wf r d later v rt).0.store
  unfolding on_verdict Recorded mapping_of map_verdict verdict_on
  verdict-Recorded wf r rt (accept required chosen priority true below) found same = inl refl
  verdict-Recorded wf r rt (accept required chosen priority false below) found same =
      mapping-Recorded wf r rt (accept required chosen priority false below) _ found same λ e h.
        by_decision required chosen priority below e
          (validate-IsAdmitted F d (for_decision r.intent) cfg.decision_policy now required chosen
            priority false below same)
          (map_objective-IsMapped chosen priority (for_mapper r.intent) cfg.mapper_policy e h)
  verdict-Recorded wf r rt (error code) found same =
      mapping-Recorded wf r rt (error code) _ found same λ e h.
        by_fallback e (ap is_accepted same)
          (map_fallback-IsFallback (for_mapper r.intent) cfg.mapper_policy e h)
  verdict-Recorded wf r rt (reject cause) found same =
      mapping-Recorded wf r rt (reject cause) _ found same λ e h.
        by_fallback e (ap is_accepted same)
          (map_fallback-IsFallback (for_mapper r.intent) cfg.mapper_policy e h)

  found-Recorded :
      (rt : EngineRuntime) (o : Option (String × WfRuntime))
      → pending_intent_for d.request_id rt.workflows ≡ o
      → Recorded F cfg d now rt (on_found F plan refuse cfg d now later o rt).0.store
  unfolding Recorded on_found verdict_on
  found-Recorded rt none found = inl refl
  found-Recorded rt (some (wf, r)) found =
      verdict-Recorded wf r rt (verdict_on F cfg d r.intent now) found refl

  -- Whatever the planner answers and the space refuses, a decision leaves the journal as it was, or
  -- as an admission of the intent that it names leaves it; and then the decision was accepted out of
  -- the shadow, under the calibration that the policy pins, with its objective mapped, or it was not
  -- accepted and a fallback of the policy was mapped.
  pub on_decision-Recorded :
      (rt : EngineRuntime)
      → Recorded F cfg d now rt (on_decision F plan refuse cfg d now later rt).0.store
  unfolding on_decision
  on_decision-Recorded rt = found-Recorded rt (pending_intent_for d.request_id rt.workflows) refl
