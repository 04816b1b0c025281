-- ===== src/Workflow/Engine/Restart.antt =====
-- `EngineState::recover` of crates/workflow-engine/src/engine.rs for one node.
use dds_llm_orchestrator.Base.{
  ℕ, zero, suc, ◌+◌, ◌≤◌, ◌<◌, String, Bool, true, false, not, ◌||◌, ◌≡◌, refl, ok, Result-cases,
  Bool-cases, inl, inr, str_eq, arith, eq_iff, ==→≡, ◌==◌, subst, ap, ◌∙◌,
}
use dds_llm_orchestrator.Workflow.Graph.{NodeSpec}
use dds_llm_orchestrator.Workflow.Journal.Rows.{Journal}
use dds_llm_orchestrator.Workflow.Journal.Attempts.{attempt_state}
use dds_llm_orchestrator.Workflow.Engine.{NodeProgress, no_progress}
use dds_llm_orchestrator.Workflow.Engine.Recovery.{read_state, read_attempts, recover_node}

-- The texts that end an attempt.
unfoldable pub closes : String → Bool
closes state = str_eq state "done" || str_eq state "failed" || str_eq state "cancelled"

-- The attempt has no row, or one that does not end it.
unfoldable pub IsOpen : Journal → String → String → ℕ → Type 0
IsOpen j wf id i = (state : String) → attempt_state wf id i j ≡ ok state → closes state ≡ false

-- The progress of a node whose attempt was closed in this state.
unfoldable pub Closed : ℕ → String → NodeProgress → Type 0
Closed attempt state p =
    (p.active_attempt ≡ attempt)
    × (p.done ≡ str_eq state "done")
    × (p.failed ≡ not (str_eq state "done"))

read_state-Closed :
    (attempt : ℕ) (state : String) (p : NodeProgress) (rest : NodeProgress → NodeProgress)
    → closes state ≡ true
    → p.done ≡ false
    → p.failed ≡ false
    → Closed attempt state (read_state attempt state p rest)
unfolding read_state closes Closed
read_state-Closed attempt state p rest c d f =
    ground (arith, c, d, f, eq_iff state "done", eq_iff state "failed", eq_iff state "cancelled")

module _ (j : Journal) (wf id : String) (k : ℕ) (last : String)
    (at : attempt_state wf id k j ≡ ok last) (c : closes last ≡ true) where
  read_state-open :
      (attempt : ℕ) (state : String) (p : NodeProgress) (rest : NodeProgress → NodeProgress)
      → closes state ≡ false
      → ((q : NodeProgress) → q.done ≡ p.done → q.failed ≡ p.failed → Closed k last (rest q))
      → Closed k last (read_state attempt state p rest)
  unfolding read_state closes
  read_state-open attempt state p rest o h = ground (
    arith,
    o,
    h (record p { active_attempt = attempt; in_doubt = true }) refl refl,
    h (record p { active_attempt = attempt }) refl refl,
  )

  read_attempts-Closed :
      (fuel from : ℕ) (p : NodeProgress)
      → from ≤ k
      → k < from + fuel
      → ((i : ℕ) → from ≤ i → i < k → IsOpen j wf id i)
      → p.done ≡ false
      → p.failed ≡ false
      → Closed k last (read_attempts j wf id fuel from p)
  unfolding read_attempts IsOpen
  read_attempts-Closed zero from p h h' o d f = absurd (omega arith)
  read_attempts-Closed (suc fuel) from p h h' o d f = elim (Bool-cases (from == k)) [
    | inl same ↦
        let here : from ≡ k = ==→≡ from k same in
        rw (read_attempts, ap (λ i. attempt_state wf id i j) here ∙ at)
          (subst
            (λ a. Closed a last (read_state from last p (read_attempts j wf id fuel (from + 1))))
            here (read_state-Closed from last p (read_attempts j wf id fuel (from + 1)) c d f))
    | inr apart ↦
        let before : from < k = ground (arith, apart, h) in
        let later : (i : ℕ) → from + 1 ≤ i → i < k → IsOpen j wf id i =
          λ i g g'. o i (omega (arith, g)) g' in
        elim (Result-cases (attempt_state wf id from j)) [
          | inl (state, e) ↦
              rw (read_attempts, e)
                (read_state-open from state p (read_attempts j wf id fuel (from + 1))
                  (o from (omega arith) before state e)
                  (λ q d' f'.
                    read_attempts-Closed fuel (from + 1) q (omega (arith, before))
                      (omega (arith, h')) later (d' ∙ d) (f' ∙ f)))
          | inr (x, e) ↦
              rw (read_attempts, e)
                (read_attempts-Closed fuel (from + 1) p (omega (arith, before)) (omega (arith, h'))
                  later d f)
        ]
  ]

-- After a restart the first attempt of a node that was closed decides: the node is done if that
-- attempt is, it is failed if that attempt failed or was cancelled, and that attempt is the active
-- one, whatever the rows of later attempts say.
pub recover_node-Closed :
    (j : Journal) (wf : String) (n : NodeSpec) (k : ℕ) (last : String)
    → 1 ≤ k
    → k ≤ n.max_attempts
    → attempt_state wf n.node_id k j ≡ ok last
    → closes last ≡ true
    → ((i : ℕ) → 1 ≤ i → i < k → IsOpen j wf n.node_id i)
    → Closed k last (recover_node j wf n)
unfolding recover_node
recover_node-Closed j wf n k last one limit at c o =
    read_attempts-Closed j wf n.node_id k last at c n.max_attempts 1
      (record no_progress { active_attempt = 1 }) one (omega (arith, limit)) o refl refl
