-- ===== src/Dag/Verdict.antt =====
-- The verdicts of the validator of crates/workflow-engine/src/dag.rs.
use dds_llm_orchestrator.Base.{
  ℕ, ◌+◌, ◌*◌, ◌≤◌, ◌<◌, ◌≡◌, ◌⊎◌, inl, inr, refl, String, Bool, true, false, not, ◌&&◌, Bool-cases,
  Result, Result-cases, ok, err, List, [], ◌∷◌, if◌then◌else◌, All, arith, leb, ltb, length,
  u64_max, saturating_add,
}
use dds_llm_orchestrator.Base.Dict.{Dict}
use dds_llm_orchestrator.Base.{Option-cases, some}
use dds_llm_orchestrator.Base.Dict.{lookup, mem}
use dds_llm_orchestrator.Dag.{
  CandidateNode, PlanCandidate, WorkflowIntent, DagError, ensure, and_then, known, first_unknown,
  unknown, is_priority, fed, check_node, check_nodes, check_plan, is_tool, max_output_bytes,
  max_fanout,
}
use dds_llm_orchestrator.Dag.Totality.{IsKnown}

ensure-ok {ℓ} :
    {A : Type ℓ} (b : Bool) (e : DagError) (r : Result DagError A) (a : A)
    → ensure b e r ≡ ok a
    → (b ≡ true) × (r ≡ ok a)
ensure-ok true e r a h = (refl, h)
ensure-ok false e r a h = ground arith

and_then-ok {ℓ} :
    {A : Type ℓ} (x : Result DagError (Unit {0})) (r : Result DagError A) (a : A)
    → and_then x r ≡ ok a
    → (x ≡ ok tt) × (r ≡ ok a)
and_then-ok (ok tt) r a h = (refl, h)
and_then-ok (err e) r a h = ground arith

known-IsKnown :
    (ds : List String) (by_id : Dict CandidateNode) (seen : List String) (id : String)
    → known ds by_id seen id ≡ ok tt
    → All (IsKnown by_id) ds
known-IsKnown [] by_id seen id h = tt
known-IsKnown (d ∷ ds) by_id seen id h =
    let (a, q) = ensure-ok _ _ _ tt h in
    let (b, r) = ensure-ok _ _ _ tt q in (a, known-IsKnown ds by_id (d ∷ seen) id r)

-- An input comes from a dependency that declares the output.
abbrev pub IsFed : Dict CandidateNode → List String → String × String → Type 0
IsFed by_id dependencies (producer, output) =
    (mem producer dependencies ≡ true)
    × ((p : CandidateNode) × (lookup producer by_id ≡ some p) × (mem output p.output_names ≡ true))

fed-IsFed :
    (inputs : List (String × String)) (by_id : Dict CandidateNode) (dependencies : List String)
    → fed inputs by_id dependencies ≡ ok tt
    → All (IsFed by_id dependencies) inputs
fed-IsFed [] by_id dependencies h = tt
fed-IsFed ((producer, output) ∷ inputs) by_id dependencies h =
    elim (Option-cases (lookup producer by_id)) [
      | inl n ↦ ground arith
      | inr (p, q) ↦
          ((ground arith, (p, q, ground arith)), fed-IsFed inputs by_id dependencies (ground arith))
    ]

first_unknown-ok : (ls : List String) → first_unknown ls ≡ ok tt → ls ≡ []
first_unknown-ok [] h = refl
first_unknown-ok (l ∷ ls) h = ground arith

-- What the checks of one node leave of it.
abbrev pub IsAllowed : ℕ → WorkflowIntent → Dict CandidateNode → CandidateNode → Type 0
IsAllowed now intent by_id n =
    ((1 ≤ n.max_attempts) × (n.max_attempts ≤ 3))
    × (n.output_bytes ≤ max_output_bytes)
    × (is_tool n.kind ≡ false)
    × ((n.deadline_ns ≡ 0) ⊎ (now < n.deadline_ns))
    × ((n.deadline_ns ≡ 0) ⊎ ((intent.deadline_ns ≡ 0) ⊎ (n.deadline_ns ≤ intent.deadline_ns)))
    × (is_priority n.priority ≡ true)
    × (unknown n.required_capabilities ≡ [])
    × All (IsFed by_id n.dependencies) n.inputs
    × (length n.dependencies ≤ max_fanout)
    × All (IsKnown by_id) n.dependencies

check_node-IsAllowed :
    (now : ℕ) (intent : WorkflowIntent) (by_id : Dict CandidateNode) (n : CandidateNode)
    → check_node now intent by_id n ≡ ok tt
    → IsAllowed now intent by_id n
unfolding check_node
check_node-IsAllowed now intent by_id n h =
    let (caps, h1) = and_then-ok _ _ tt h in
    let (prio, h2) = ensure-ok _ _ _ tt h1 in
    let (attempts, h3) = ensure-ok (leb 1 n.max_attempts && leb n.max_attempts 3) _ _ tt h2 in
    let (bytes, h4) = ensure-ok (leb n.output_bytes max_output_bytes) _ _ tt h3 in
    let (kind, h5) = ensure-ok (not (is_tool n.kind)) _ _ tt h4 in
    let (alive, h6) = ensure-ok (not (ltb 0 n.deadline_ns && leb n.deadline_ns now)) _ _ tt h5 in
    let (within, h7) =
      ensure-ok
        (not
          (ltb 0 n.deadline_ns && ltb 0 intent.deadline_ns && ltb intent.deadline_ns n.deadline_ns))
        _ _ tt h6 in
    let (deps, h8) = and_then-ok _ _ tt h7 in
    let (fanout, h9) = ensure-ok (leb (length n.dependencies) max_fanout) _ _ tt h8 in
    (
      ground (arith, attempts),
      ground (arith, bytes),
      ground (arith, kind),
      ground (arith, alive),
      ground (arith, within),
      prio,
      first_unknown-ok (unknown n.required_capabilities) caps,
      fed-IsFed n.inputs by_id n.dependencies h9,
      ground (arith, fanout),
      known-IsKnown n.dependencies by_id [] n.node_id deps,
    )

-- The most that the attempts of these nodes may spend.
abbrev pub reserve : List CandidateNode → ℕ
reserve [] = 0
reserve (n ∷ ns) = n.max_tokens * n.max_attempts + reserve ns

saturated :
    (t x r total : ℕ)
    → (u64_max ≤ total) ⊎ (saturating_add t (if leb x u64_max then x else u64_max) + r ≤ total)
    → (u64_max ≤ total) ⊎ (t + (x + r) ≤ total)
saturated t x r total (inl l) = inl l
saturated t x r total (inr l) = elim (Bool-cases (leb (t + x) u64_max)) [
  | inl y ↦ inr (ground arith)
  | inr n ↦ inl (ground arith)
]

pub check_nodes_lem :
    (now : ℕ) (intent : WorkflowIntent) (by_id : Dict CandidateNode) (ns : List CandidateNode)
    (t total : ℕ)
    → check_nodes now intent by_id ns t ≡ ok total
    → All (IsAllowed now intent by_id) ns × ((u64_max ≤ total) ⊎ (t + reserve ns ≤ total))
unfolding check_nodes
check_nodes_lem now intent by_id [] t total h = (tt, inr (ground arith))
check_nodes_lem now intent by_id (n ∷ ns) t total h =
    let (a, q) = and_then-ok _ _ total h in
    let (all, l) = check_nodes_lem now intent by_id ns _ total q in
    (
      (check_node-IsAllowed now intent by_id n a, all),
      saturated t (n.max_tokens * n.max_attempts) (reserve ns) total l,
    )

-- What an accepted plan was asked before the search.
pub check_plan_lem :
    (cand : PlanCandidate) (intent : WorkflowIntent) (now : ℕ) (by_id : Dict CandidateNode)
    → check_plan cand intent now ≡ ok by_id
    → (total : ℕ) × (check_nodes now intent by_id cand.nodes cand.planner_tokens ≡ ok total)
      × (total ≤ intent.max_tokens)
unfolding check_plan
check_plan_lem cand intent now by_id h =
    elim (Result-cases (check_nodes now intent by_id cand.nodes cand.planner_tokens)) [
      | inl (total, q) ↦ (total, q, ground arith)
      | inr (e, q) ↦ ground arith
    ]
