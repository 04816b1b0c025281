-- ===== src/Dag/Answer.antt =====
-- The answers of the validator of crates/workflow-engine/src/dag.rs.
use dds_llm_orchestrator.Base.{
  ℕ, suc, ◌+◌, ◌≤◌, ◌<◌, ◌≡◌, inl, inr, refl, ap, ◌∙◌, subst, String, true, none, some, Bool-cases,
  Result, Result-cases, ok, err, List, [], ◌∷◌, str_eq, if◌then◌else◌, All, arith, leb, length,
}
use dds_llm_orchestrator.Base.Dict.{Dict, lookup, insert, lookup-insert, contains_key}
use dds_llm_orchestrator.Dag.{
  CandidateNode, PlanCandidate, WorkflowIntent, Stop, DagError, returned, panicked, exhausted,
  Marks, check_plan, index, measure, depth_first, max_depth, no_marks, validate_candidate,
}
use dds_llm_orchestrator.Dag.Plans.{IsFound, HoldsAll, index-HoldsAll, check_plan-index}
use dds_llm_orchestrator.Dag.Totality.{
  Settled, whites, Closed, IsKnown, Answers, depth_first-Answers,
}
use dds_llm_orchestrator.Dag.Verdict.{IsAllowed, check_nodes_lem, check_plan_lem}

-- The verdict of the code: acceptance or one of its errors.
abbrev pub IsVerdict : Result Stop (Unit {0}) → Type 0
IsVerdict (ok u) = Unit
IsVerdict (err (returned e)) = Unit
IsVerdict (err panicked) = ⊥
IsVerdict (err exhausted) = ⊥

abbrev HasVerdict : Marks × Result Stop (Unit {0}) → Type 0
HasVerdict w = IsVerdict w.1

contains_key-some :
    (k : String) (m : Dict CandidateNode) (n : CandidateNode)
    → lookup k m ≡ some n
    → contains_key k m ≡ true
unfolding contains_key
contains_key-some k m n q = ground arith

-- The measure of each node ends.
measure-IsVerdict :
    (by_id : Dict CandidateNode) (fuel : ℕ) (ns : List CandidateNode) (m : Marks)
    → Closed by_id
    → whites by_id m.state < fuel
    → Settled m
    → All (IsFound by_id) ns
    → IsVerdict (measure by_id fuel ns m).1
unfolding measure
measure-IsVerdict by_id fuel [] m closed f s found = tt
measure-IsVerdict by_id fuel (n ∷ ns) m closed f s found =
    after (depth_first by_id fuel n.node_id m)
      (λ m' l s'. measure-IsVerdict by_id fuel ns m' closed (omega (arith, l, f)) s' found.1)
      (depth_first-Answers by_id fuel n.node_id m closed f s
        (contains_key-some n.node_id by_id n found.0))
  where
    after :
        (w : Marks × Result Stop ℕ)
        → ((m' : Marks)
            → whites by_id m'.state ≤ whites by_id m.state
            → Settled m'
            → IsVerdict (measure by_id fuel ns m').1)
        → Answers by_id (whites by_id m.state) w
        → HasVerdict (
            let (m', r) = w in
            elim r [
              | err e ↦ (m', err e)
              | ok d ↦
                  if leb d max_depth
                  then measure by_id fuel ns m'
                  else (m', err (returned DagError.limit_violation))
            ])
    after (m', ok d) rest (s', l) = elim (Bool-cases (leb d max_depth)) [
      | inl y ↦ rw y (rest m' l s')
      | inr g ↦ rw g tt
    ]
    after (m', err (returned e)) rest h = tt
    after (m', err panicked) rest h = h
    after (m', err exhausted) rest h = h

length-insert :
    (k : String) (n : CandidateNode) (m : Dict CandidateNode)
    → length (insert k n m) ≤ suc (length m)
unfolding insert
length-insert k n [] = omega arith
length-insert k n ((j, x) ∷ m) = ground (arith, length-insert k n m)

-- What the map of a plan has in it.
index-length :
    (ns : List CandidateNode) (before by_id : Dict CandidateNode)
    → index ns before ≡ ok by_id
    → length by_id ≤ length ns + length before
unfolding index
index-length [] before by_id h = ground arith
index-length (n ∷ ns) before by_id h =
    ground
      (arith, index-length ns (insert n.node_id n before) by_id, length-insert n.node_id n before)

insert-All :
    (P : CandidateNode → Type 0) (x : CandidateNode) (before : Dict CandidateNode)
    → P x
    → ((k : String) (n : CandidateNode) → lookup k before ≡ some n → P n)
    → (k : String) (n : CandidateNode) → lookup k (insert x.node_id x before) ≡ some n
    → P n
insert-All P x before p b k n q = elim (Bool-cases (str_eq x.node_id k)) [
  | inl y ↦ subst P (same y) p
  | inr a ↦ b k n (ground (arith, lookup-insert x.node_id k x before))
]
  where
    same : str_eq x.node_id k ≡ true → x ≡ n
    same y = ground (arith, lookup-insert x.node_id k x before)

index-All :
    (P : CandidateNode → Type 0) (ns : List CandidateNode) (before by_id : Dict CandidateNode)
    → All P ns
    → ((k : String) (n : CandidateNode) → lookup k before ≡ some n → P n)
    → index ns before ≡ ok by_id
    → (k : String) (n : CandidateNode) → lookup k by_id ≡ some n
    → P n
unfolding index
index-All P [] before by_id a b h k n q = b k n (ap (lookup k) before_is ∙ q)
  where
    before_is : before ≡ by_id
    before_is = ground arith
index-All P (x ∷ xs) before by_id a b h k n q =
    index-All P xs (insert x.node_id x before) by_id a.1 (insert-All P x before a.0 b)
      (ground arith) k n q

whites-length : (by_id : Dict CandidateNode) (state : Dict ℕ) → whites by_id state ≤ length by_id
whites-length [] state = omega arith
whites-length ((k, n) ∷ by_id) state = ground (arith, whites-length by_id state)

All-IsKnown :
    (now : ℕ) (intent : WorkflowIntent) (by_id : Dict CandidateNode) (ns : List CandidateNode)
    → All (IsAllowed now intent by_id) ns
    → All (λ n. All (IsKnown by_id) n.dependencies) ns
All-IsKnown now intent by_id [] h = tt
All-IsKnown now intent by_id (n ∷ ns) (h, hs) = (h.9, All-IsKnown now intent by_id ns hs)

-- The validator answers every candidate with acceptance or with an error of its own: the search
-- ends, and its `expect` never fails.
pub validate_candidate-IsVerdict :
    (cand : PlanCandidate) (intent : WorkflowIntent) (now : ℕ)
    → IsVerdict (validate_candidate cand intent now)
unfolding validate_candidate lookup
validate_candidate-IsVerdict cand intent now = elim (Result-cases (check_plan cand intent now)) [
  | inr (e, q) ↦ rw (q, validate_candidate) tt
  | inl (by_id, q) ↦
      let i = check_plan-index cand intent now by_id q in
      let (total, checks, l) = check_plan_lem cand intent now by_id q in
      let (all, spent) =
        check_nodes_lem now intent by_id cand.nodes cand.planner_tokens total checks in
      rw (q, validate_candidate)
        (measure-IsVerdict by_id (length cand.nodes + 1) cand.nodes no_marks
          (index-All (λ n. All (IsKnown by_id) n.dependencies) cand.nodes [] by_id
            (All-IsKnown now intent by_id cand.nodes all) (λ k n p. absurd (nothing k n p)) i)
          (ground (arith, whites-length by_id [], index-length cand.nodes [] by_id i))
          (λ k o. inl (nowhere k))
          (subst (HoldsAll cand.nodes []) i (index-HoldsAll cand.nodes [])).1)
]
  where
    nothing : (k : String) (n : CandidateNode) → lookup k [] ≡ some n → ⊥
    nothing k n p = ground arith

    nowhere : (k : String) → lookup {V = ℕ} k [] ≡ none
    nowhere k = refl
