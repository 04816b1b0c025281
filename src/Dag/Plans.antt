-- ===== src/Dag/Plans.antt =====
-- The plans that crates/workflow-engine/src/dag.rs accepts, and the ranks of their nodes.
use dds_llm_orchestrator.Base.{
  ℕ, ◌+◌, ◌≤◌, ◌≡◌, inl, inr, refl, sym, ◌∙◌, subst, String, true, false, Option, none, some,
  Bool-cases, Result, Result-cases, ok, err, List, [], ◌∷◌, if◌then◌else◌, All, arith, eq_iff,
  eq_refl, leb, length,
}
use dds_llm_orchestrator.Base.Dict.{Dict, lookup, insert, lookup-insert, contains_key}
use dds_llm_orchestrator.Dag.{
  CandidateNode, PlanCandidate, WorkflowIntent, Stop, DagError, returned, Marks, index, depth_first,
  measure, check_plan, validate_candidate, max_depth, no_marks,
}
use dds_llm_orchestrator.Dag.Rank.{Ranks, Keeps, IsBelow, Visits, depth_first-Visits}

-- A rank of at most `max_depth`, above the ranks of its dependencies.
abbrev pub IsRanked : Dict ℕ → CandidateNode → Type 0
IsRanked rank n =
    (d : ℕ) × (lookup n.node_id rank ≡ some d)
    × (d ≤ max_depth)
    × All (IsBelow rank d) n.dependencies

abbrev pub IsFound : Dict CandidateNode → CandidateNode → Type 0
IsFound by_id n = lookup n.node_id by_id ≡ some n

abbrev IsShallow : Dict ℕ → CandidateNode → Type 0
IsShallow memo n = (d : ℕ) × (lookup n.node_id memo ≡ some d) × (d ≤ max_depth)

abbrev Measures :
    Dict CandidateNode → List CandidateNode → Marks → Marks × Result Stop (Unit {0}) → Type 0
Measures by_id ns m (m', ok u) =
    Ranks by_id m'.memo × Keeps m.memo m'.memo × All (IsShallow m'.memo) ns
Measures by_id ns m (m', err e) = Unit

measure-Measures :
    (by_id : Dict CandidateNode) (fuel : ℕ) (ns : List CandidateNode) (m : Marks)
    → Ranks by_id m.memo
    → Measures by_id ns m (measure by_id fuel ns m)
unfolding measure
measure-Measures by_id fuel [] m h = (h, (λ k d q. q), tt)
measure-Measures by_id fuel (n ∷ ns) m h =
    after (depth_first by_id fuel n.node_id m) (measure-Measures by_id fuel ns)
      (depth_first-Visits by_id fuel n.node_id m h)
  where
    longer :
        (m' : Marks) (d : ℕ) (w : Marks × Result Stop (Unit {0}))
        → Visits by_id n.node_id m (m', ok d)
        → leb d max_depth ≡ true
        → Measures by_id ns m' w
        → Measures by_id (n ∷ ns) m w
    longer m' d (m'', ok u) (ranks, keeps, opens, q) l (ranks', keeps', shallow) = (
      ranks',
      (λ k e p. keeps' k e (keeps k e p)),
      ((d, keeps' n.node_id d q, ground arith), shallow),
    )
    longer m' d (m'', err e) v l h = tt

    after :
        (w : Marks × Result Stop ℕ)
        → ((m : Marks) → Ranks by_id m.memo → Measures by_id ns m (measure by_id fuel ns m))
        → Visits by_id n.node_id m w
        → Measures by_id (n ∷ ns) m (
            let (m', r) = w in
            elim r [
              | err e ↦ (m', err e)
              | ok d ↦
                  if leb d max_depth
                  then measure by_id fuel ns m'
                  else (m', err (returned DagError.limit_violation))
            ])
    after (m', err e) rest v = tt
    after (m', ok d) rest v = elim (Bool-cases (leb d max_depth)) [
      | inl l ↦ rw l (longer m' d (measure by_id fuel ns m') v l (rest m' v.0))
      | inr g ↦ rw g tt
    ]

abbrev pub HoldsAll :
    List CandidateNode → Dict CandidateNode → Result DagError (Dict CandidateNode) → Type 0
HoldsAll ns before (ok by_id) =
    ((k : String) (n : CandidateNode) → lookup k before ≡ some n → lookup k by_id ≡ some n)
    × All (IsFound by_id) ns
HoldsAll ns before (err e) = Unit

insert-keeps :
    (id k : String) (n x : CandidateNode) (m : Dict CandidateNode)
    → contains_key id m ≡ false
    → lookup k m ≡ some x
    → lookup k (insert id n m) ≡ some x
unfolding contains_key
insert-keeps id k n x m a q = ground (arith, lookup-insert id k n m, eq_iff id k)

pub index-HoldsAll :
    (ns : List CandidateNode) (before : Dict CandidateNode) → HoldsAll ns before (index ns before)
unfolding index
index-HoldsAll [] before = ((λ k n q. q), tt)
index-HoldsAll (n ∷ ns) before = elim (Bool-cases (contains_key n.node_id before)) [
  | inl y ↦ rw y tt
  | inr a ↦ rw a (
      after a (index ns (insert n.node_id n before))
        (index-HoldsAll ns (insert n.node_id n before)))
]
  where
    after :
        contains_key n.node_id before ≡ false
        → (r : Result DagError (Dict CandidateNode)) → HoldsAll ns (insert n.node_id n before) r
        → HoldsAll (n ∷ ns) before r
    after a (ok by_id) (keeps, found) = (
      (λ k x q. keeps k x (insert-keeps n.node_id k n x before a q)),
      (
        keeps n.node_id n
            (ground (arith, lookup-insert n.node_id n.node_id n before, eq_refl n.node_id)),
        found,
      ),
    )
    after a (err e) h = tt

none-some : {d : ℕ} → ◌≡◌ {A = Option ℕ} none (some d) → ⊥
none-some p = ground arith

pub check_plan-index :
    (cand : PlanCandidate) (intent : WorkflowIntent) (now : ℕ) (by_id : Dict CandidateNode)
    → check_plan cand intent now ≡ ok by_id
    → index cand.nodes [] ≡ ok by_id
unfolding check_plan
check_plan-index cand intent now by_id h = ground arith

measure-IsRanked :
    (by_id : Dict CandidateNode) (memo : Dict ℕ) (ns : List CandidateNode)
    → Ranks by_id memo
    → All (IsFound by_id) ns
    → All (IsShallow memo) ns
    → All (IsRanked memo) ns
measure-IsRanked by_id memo [] r f s = tt
measure-IsRanked by_id memo (n ∷ ns) r f s =
    let (d, q, l) = s.0 in
    ((d, q, l, r n.node_id d n q f.0), measure-IsRanked by_id memo ns r f.1 s.1)

no_marks-Ranks : (by_id : Dict CandidateNode) → Ranks by_id no_marks.memo
unfolding lookup
no_marks-Ranks by_id k d n p q = absurd (none-some p)

measure_ok :
    (by_id : Dict CandidateNode) (ns : List CandidateNode) (w : Marks × Result Stop (Unit {0}))
    → Measures by_id ns no_marks w
    → w.1 ≡ ok tt
    → Ranks by_id w.0.memo × All (IsShallow w.0.memo) ns
measure_ok by_id ns (m, ok u) h q = (h.0, h.2)
measure_ok by_id ns (m, err e) h q = ground arith

-- The nodes of an accepted plan have ranks of at most 16, each above those of its dependencies: no
-- node depends on itself, directly or through others, and no chain of dependencies has more than 16
-- nodes.
pub validate_candidate-IsRanked :
    (cand : PlanCandidate) (intent : WorkflowIntent) (now : ℕ)
    → validate_candidate cand intent now ≡ ok tt
    → (rank : Dict ℕ) × All (IsRanked rank) cand.nodes
unfolding validate_candidate
validate_candidate-IsRanked cand intent now h = elim (Result-cases (check_plan cand intent now)) [
  | inr (e, q) ↦ ground arith
  | inl (by_id, q) ↦
      let w = measure by_id (length cand.nodes + 1) cand.nodes no_marks in
      let (ranks, shallow) =
        measure_ok by_id cand.nodes w
          (measure-Measures by_id (length cand.nodes + 1) cand.nodes no_marks
            (no_marks-Ranks by_id))
          (sym (accepted by_id q) ∙ h) in
      (
        w.0.memo,
        measure-IsRanked by_id w.0.memo cand.nodes ranks
            (found by_id (check_plan-index cand intent now by_id q)) shallow,
      )
]
  where
    accepted :
        (by_id : Dict CandidateNode)
        → check_plan cand intent now ≡ ok by_id
        → validate_candidate cand intent now
          ≡ (measure by_id (length cand.nodes + 1) cand.nodes no_marks).1
    accepted by_id q = rw (q, validate_candidate) refl

    found :
        (by_id : Dict CandidateNode)
        → index cand.nodes [] ≡ ok by_id
        → All (IsFound by_id) cand.nodes
    found by_id q = (subst (HoldsAll cand.nodes []) q (index-HoldsAll cand.nodes [])).1
