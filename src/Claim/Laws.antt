-- ===== src/Claim/Laws.antt =====
-- The claim of crates/agent/src/claim.rs beside crates/orchestrator/src/state_machine.rs.
use dds_llm_orchestrator.Base.{
  pos, &&-split, ℕ, ◌-◌, ◌≤◌, ◌≡◌, ◌↔◌, String, Bool, true, false, ok, arith, str_eq, eq_iff,
  eq_refl,
}
use dds_llm_orchestrator.Task.{Task, assign, reassign, requeued}
use dds_llm_orchestrator.Task.Reassign.{reassign-requeued}
use dds_llm_orchestrator.Claim.{
  ClaimConfig, specialization_matches, max_age_ns, is_eligible_with, claim_task, confirm_ownership,
}

-- An agent that claims an eligible task makes of it what the orchestrator's `assign` would.
pub claim_task-assign :
    (t : Task) (config : ClaimConfig) (is_claimed : String → Bool) (now : ℕ)
    → is_eligible_with t config is_claimed now ≡ true
    → assign config.agent_id now t ≡ (claim_task t config.agent_id now, ok tt)
unfolding is_eligible_with claim_task assign
claim_task-assign t config is_claimed now h = ground arith

-- A claimed task is confirmed for the agent that claimed it and for no other.
pub confirm_ownership-claim_task :
    (t : Task) (a b : String) (now : ℕ)
    → (confirm_ownership (claim_task t a now) b ≡ true) ↔ (a ≡ b)
unfolding claim_task confirm_ownership
confirm_ownership-claim_task t a b now =
    (λ h. (eq_iff a b).0 (&&-split (str_eq a b) true h).0, λ e. rw ((eq_iff a b).1 e))

-- A claimed task is eligible for no agent.
pub claim_task-not_eligible :
    (t : Task) (agent : String) (config : ClaimConfig) (is_claimed : String → Bool) (now later : ℕ)
    → is_eligible_with (claim_task t agent now) config is_claimed later ≡ false
unfolding is_eligible_with claim_task
claim_task-not_eligible t agent config is_claimed now later = ground arith

requeued-is_eligible :
    (t : Task) (now later : ℕ) (config : ClaimConfig) (is_claimed : String → Bool)
    → is_claimed t.task_id ≡ false
    → specialization_matches config.specialization t.model_required ≡ true
    → later - now ≤ max_age_ns
    → is_eligible_with (requeued now (record t { status = pos 0 })) config is_claimed later ≡ true
unfolding is_eligible_with
requeued-is_eligible t now later config is_claimed c s h = ground (arith, eq_refl "")

-- A task that `reassign` sent back to the queue can be claimed, for ten seconds, by every agent of
-- a matching specialization that has not claimed it, whatever prefix the agent is restricted to and
-- whichever agent the task was meant for before.
pub reassign-is_eligible :
    (t t' : Task) (max now later : ℕ) (config : ClaimConfig) (is_claimed : String → Bool)
    → reassign max now t ≡ (t', ok true)
    → is_claimed t.task_id ≡ false
    → specialization_matches config.specialization t.model_required ≡ true
    → later - now ≤ max_age_ns
    → is_eligible_with t' config is_claimed later ≡ true
reassign-is_eligible t t' max now later config is_claimed e c s h =
    rw (reassign-requeued t t' max now e) (requeued-is_eligible t now later config is_claimed c s h)
