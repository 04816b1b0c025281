-- ===== src/Workflow/Engine/Attempts.antt =====
-- The attempts of a node in crates/workflow-engine/src/engine.rs and the limit of its plan.
use dds_llm_orchestrator.Base.{
  ℕ, zero, suc, ◌+◌, ◌≤◌, String, Bool, true, ◌≡◌, none, some, List, [], ◌∷◌, map, Result-cases,
  inl, inr, eq_iff, arith, All,
}
use dds_llm_orchestrator.Base.Dict.{Dict, lookup, insert, lookup-insert}
use dds_llm_orchestrator.Dag.{CandidateNode, PlanCandidate}
use dds_llm_orchestrator.Workflow.Graph.{
  NodeSpec, PlanGraph, node, find_node, node_from_candidate, graph_from_candidate,
}
use dds_llm_orchestrator.Workflow.Journal.Rows.{Journal}
use dds_llm_orchestrator.Workflow.Journal.Attempts.{attempt_state}
use dds_llm_orchestrator.Workflow.Engine.{NodeProgress, no_progress}
use dds_llm_orchestrator.Workflow.Engine.Recovery.{
  read_state, read_attempts, recover_node, recover_nodes, recover,
}
use dds_llm_orchestrator.Workflow.Engine.Events.{Event, Move, run_events, AnyAmount, any_amount}
use dds_llm_orchestrator.Workflow.Engine.Moves.{run_events-Holds}

-- Every node of a plan has an attempt.
find_node-attempts :
    (id : String) (cs : List CandidateNode) (spec : NodeSpec)
    → find_node id (map node_from_candidate cs) ≡ some spec
    → 1 ≤ spec.max_attempts
unfolding find_node node_from_candidate
find_node-attempts id [] spec e = ground (arith, e)
find_node-attempts id (c ∷ cs) spec e = ground (arith, e, find_node-attempts id cs spec)

-- The attempt under way is one that the plan allows.
Bounded : PlanGraph → Dict NodeProgress → Type 0
Bounded g nodes =
    (id : String) (p : NodeProgress) (spec : NodeSpec)
    → lookup id nodes ≡ some p
    → node id g ≡ some spec
    → p.active_attempt ≤ spec.max_attempts

Move-bounded :
    (spec : NodeSpec) (p p' : NodeProgress)
    → Move spec p p'
    → 1 ≤ spec.max_attempts
    → p.active_attempt ≤ spec.max_attempts
    → p'.active_attempt ≤ spec.max_attempts
Move-bounded spec p _ (Move.starts _ d) one h = omega arith
Move-bounded spec p _ (Move.doubts _ d) one h = h
Move-bounded spec p _ (Move.concludes _ outputs d c) one h = h
Move-bounded spec p _ (Move.retries _ d lt) one h = omega arith
Move-bounded spec p _ (Move.gives_up _ d) one h = h

module _ (wf : String) (rev : ℕ) (c : PlanCandidate) where
  abbrev g : PlanGraph
  g = graph_from_candidate wf rev c

  one_attempt : (id : String) (spec : NodeSpec) → node id g ≡ some spec → 1 ≤ spec.max_attempts
  unfolding node graph_from_candidate
  one_attempt id spec n = find_node-attempts id c.nodes spec n

  opened-Bounded :
      (id : String) (spec : NodeSpec) (nodes : Dict NodeProgress)
      → node id g ≡ some spec
      → lookup id nodes ≡ none
      → Bounded g nodes
      → Bounded g (insert id no_progress nodes)
  unfolding Bounded
  opened-Bounded id spec nodes n e q i p s at n' =
      ground (arith, at, n', lookup-insert id i no_progress nodes, q i p s)

  moved-Bounded :
      (id : String) (spec : NodeSpec) (p p' : NodeProgress) (nodes : Dict NodeProgress)
      → node id g ≡ some spec
      → lookup id nodes ≡ some p
      → Move spec p p'
      → Bounded g nodes
      → Bounded g (insert id p' nodes)
  unfolding Bounded
  moved-Bounded id spec p p' nodes n at m q i x s at' n' = ground (
    arith,
    at',
    n',
    n,
    lookup-insert id i p' nodes,
    eq_iff id i,
    q i x s,
    Move-bounded spec p p' m (one_attempt id spec n) (q id p spec at n),
  )

-- Recovery reads no attempt past the limit.
read_state-le :
    (attempt m : ℕ) (state : String) (p : NodeProgress) (rest : NodeProgress → NodeProgress)
    → attempt ≤ m
    → ((q : NodeProgress) → q.active_attempt ≤ m → (rest q).active_attempt ≤ m)
    → (read_state attempt state p rest).active_attempt ≤ m
unfolding read_state
read_state-le attempt m state p rest h k = ground (
  arith,
  h,
  k (record p { active_attempt = attempt; in_doubt = true }),
  k (record p { active_attempt = attempt }),
)

read_attempts-le :
    (j : Journal) (wf id : String) (fuel from m : ℕ) (p : NodeProgress)
    → from + fuel ≤ m + 1
    → p.active_attempt ≤ m
    → (read_attempts j wf id fuel from p).active_attempt ≤ m
unfolding read_attempts
read_attempts-le j wf id zero from m p h k = k
read_attempts-le j wf id (suc fuel) from m p h k =
    elim (Result-cases (attempt_state wf id from j)) [
      | inl (state, e) ↦
          rw (read_attempts, e)
            (read_state-le from m state p (read_attempts j wf id fuel (from + 1)) (omega arith)
              (λ q. read_attempts-le j wf id fuel (from + 1) m q (omega arith)))
      | inr (x, e) ↦
          rw (read_attempts, e) (read_attempts-le j wf id fuel (from + 1) m p (omega arith) k)
    ]

recover_node-le :
    (j : Journal) (wf : String) (n : NodeSpec)
    → 1 ≤ n.max_attempts
    → (recover_node j wf n).active_attempt ≤ n.max_attempts
unfolding recover_node
recover_node-le j wf n h =
    read_attempts-le j wf n.node_id n.max_attempts 1 n.max_attempts
      (record no_progress { active_attempt = 1 }) (omega arith) h

recover_nodes-Bounded :
    (g : PlanGraph) (j : Journal) (ns : List NodeSpec) (nodes : Dict NodeProgress)
    → ((id : String) (s : NodeSpec) → node id g ≡ some s → 1 ≤ s.max_attempts)
    → All (λ n. node n.node_id g ≡ some n) ns
    → Bounded g nodes
    → Bounded g (recover_nodes j g.workflow_id ns nodes)
unfolding recover_nodes Bounded
recover_nodes-Bounded g j [] nodes one a q = q
recover_nodes-Bounded g j (n ∷ ns) nodes one a q =
    recover_nodes-Bounded g j ns (insert n.node_id (recover_node j g.workflow_id n) nodes) one a.1
      λ i x s at e. ground (
        arith,
        at,
        e,
        a.0,
        lookup-insert n.node_id i (recover_node j g.workflow_id n) nodes,
        eq_iff n.node_id i,
        q i x s,
        recover_node-le j g.workflow_id n (one n.node_id n a.0),
      )

empty-Bounded : (g : PlanGraph) → Bounded g []
unfolding Bounded lookup
empty-Bounded g id p s e n = ground (arith, e)

-- Whatever is published, finished or lost, in any order, after a recovery from any journal: the
-- attempt under way of a node never passes the plan's limit for that node, given that the plan
-- names no node twice.
pub run_events-attempts :
    (digest : String → String) (foreign_keys : Bool) (wf : String) (rev : ℕ) (c : PlanCandidate)
    (j : Journal) (es : List Event) (id : String) (p : NodeProgress) (spec : NodeSpec)
    → All
        (λ n. node n.node_id (graph_from_candidate wf rev c) ≡ some n)
        (graph_from_candidate wf rev c).nodes
    → lookup id
        (run_events digest foreign_keys
          (graph_from_candidate wf rev c)
          es
          (record { nodes = recover j (graph_from_candidate wf rev c); store = j })).nodes
      ≡ some p
    → node id (graph_from_candidate wf rev c) ≡ some spec
    → p.active_attempt ≤ spec.max_attempts
unfolding recover Bounded
run_events-attempts digest foreign_keys wf rev c j es id p spec named at n =
    run_events-Holds digest foreign_keys (g wf rev c) AnyAmount (λ w. Bounded (g wf rev c) w.nodes)
      (λ id spec w. opened-Bounded wf rev c id spec w.nodes)
      (λ id spec p p' w. moved-Bounded wf rev c id spec p p' w.nodes) (λ w j m q. q) es _
      (any_amount es)
      (recover_nodes-Bounded (g wf rev c) j (g wf rev c).nodes [] (one_attempt wf rev c) named
        (empty-Bounded (g wf rev c)))
      id p spec at n
