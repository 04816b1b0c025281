-- ===== src/Dag.antt =====
-- The validator of a candidate plan: crates/workflow-engine/src/dag.rs, with the catalogue of
-- crates/workflow-engine/src/capability_catalog.rs. The texts that format numbers are left out of
-- the errors.
pub mod Rank
pub mod Plans
pub mod Totality
pub mod Verdict
pub mod Answer
use dds_llm_orchestrator.Base.{
  ℕ, zero, suc, ◌+◌, ◌-◌, ◌*◌, max, ◌==◌, ℤ, pos, negsuc, String, Bool, true, false, not, ◌&&◌,
  ◌||◌, Option, none, some, Result, ok, err, List, [], ◌∷◌, str_eq, ltb, leb, length, if◌then◌else◌,
  saturating_add, u64_max,
}
use dds_llm_orchestrator.Base.Dict.{Dict, lookup, contains_key, insert, mem}

unfoldable pub labels : List String
labels =
    "rust_refactor" ∷ "python_refactor" ∷ "unit_testing" ∷ "security_audit" ∷ "code_review"
    ∷ "research" ∷ "summarization" ∷ "translation" ∷ []

unfoldable pub unknown : List String → List String
unfolding labels
unknown [] = []
unknown (l ∷ ls) = let rest = unknown ls in if mem l labels then rest else l ∷ rest

abbrev pub max_nodes : ℕ
max_nodes = 32

abbrev pub max_depth : ℕ
max_depth = 16

abbrev pub max_fanout : ℕ
max_fanout = 8

abbrev pub max_output_bytes : ℕ
max_output_bytes = 1048576

pub data NodeKindCand : Type 0 where
  inference tool : NodeKindCand

pub record CandidateNode : Type 0 where
  pub node_id : String
  pub kind : NodeKindCand
  pub required_capabilities : List String
  pub model_id : String
  pub target_agent_id : String
  pub prompt_template : String
  pub dependencies : List String
  pub output_names : List String
  pub inputs : List (String × String)
  pub max_attempts : ℕ
  pub max_tokens : ℕ
  pub output_bytes : ℕ
  pub deadline_ns : ℕ
  pub priority : ℤ
  pub side_effect_key : String

pub record PlanCandidate : Type 0 where
  pub planner_id : String
  pub planner_revision : String
  pub planner_tokens : ℕ
  pub nodes : List CandidateNode

-- The fields of an intent that the validator reads.
pub record WorkflowIntent : Type 0 where
  pub max_tokens : ℕ
  pub deadline_ns : ℕ

pub data DagError : Type 0 where
  no_nodes limit_violation : DagError
  duplicate_id unknown_dependency duplicate_dependency cycle unknown_capability deadline_passed
        tool_rejected :
      String → DagError
  bad_priority : String → ℤ → DagError
  bad_attempts : String → ℕ → DagError
  invalid_input : String → String → DagError
  aggregate_budget : ℕ → ℕ → ℕ → DagError

-- Why the validator stops: with an error of its own, by the `expect` in `depth_first`, or, in the
-- model only, because the fuel of the search is spent.
pub data Stop : Type 0 where
  returned : DagError → Stop
  panicked exhausted : Stop

-- An early return unless the test passes.
abbrev pub ensure {ℓ} : {A : Type ℓ} → Bool → DagError → Result DagError A → Result DagError A
ensure true e rest = rest
ensure false e rest = err e

unfoldable pub index :
    List CandidateNode → Dict CandidateNode → Result DagError (Dict CandidateNode)
index [] by_id = ok by_id
index (n ∷ ns) by_id =
    let rest = index ns (insert n.node_id n by_id) in
    ensure (not (contains_key n.node_id by_id)) (duplicate_id n.node_id) rest

abbrev pub first_unknown : List String → Result DagError (Unit {0})
first_unknown [] = ok tt
first_unknown (l ∷ ls) = err (unknown_capability l)

abbrev pub is_tool : NodeKindCand → Bool
is_tool tool = true
is_tool inference = false

abbrev pub is_priority : ℤ → Bool
is_priority (pos n) = n == 1 || n == 5 || n == 10
is_priority (negsuc n) = false

abbrev pub known :
    List String → Dict CandidateNode → List String → String → Result DagError (Unit {0})
known [] by_id seen id = ok tt
known (d ∷ ds) by_id seen id =
    let rest = known ds by_id (d ∷ seen) id in
    ensure (contains_key d by_id) (unknown_dependency d)
      (ensure (not (mem d seen)) (duplicate_dependency id) rest)

abbrev pub declared : Option CandidateNode → String → String → Result DagError (Unit {0})
declared none producer output = err (invalid_input producer output)
declared (some p) producer output =
    ensure (mem output p.output_names) (invalid_input producer output) (ok tt)

-- The text of an input that is not a dependency has a suffix, left out here.
abbrev pub fed :
    List (String × String) → Dict CandidateNode → List String → Result DagError (Unit {0})
fed [] by_id dependencies = ok tt
fed ((producer, output) ∷ inputs) by_id dependencies =
    let rest = fed inputs by_id dependencies in
    elim (declared (lookup producer by_id) producer output) [
      | err e ↦ err e
      | ok u ↦ ensure (mem producer dependencies) (invalid_input producer output) rest
    ]

abbrev pub and_then {ℓ} :
    {A : Type ℓ} → Result DagError (Unit {0}) → Result DagError A → Result DagError A
and_then (ok u) rest = rest
and_then (err e) rest = err e

unfoldable pub check_node :
    ℕ → WorkflowIntent → Dict CandidateNode → CandidateNode → Result DagError (Unit {0})
unfolding unknown
check_node now intent by_id n = and_then (first_unknown (unknown n.required_capabilities)) (
    ensure (is_priority n.priority) (bad_priority n.node_id n.priority) (
      ensure (leb 1 n.max_attempts && leb n.max_attempts 3) (bad_attempts n.node_id n.max_attempts)
        (ensure (leb n.output_bytes max_output_bytes) limit_violation (
          ensure (not (is_tool n.kind)) (tool_rejected n.node_id) (
            ensure (not (ltb 0 n.deadline_ns && leb n.deadline_ns now)) (deadline_passed n.node_id)
              (ensure
                (not (
                  ltb 0 n.deadline_ns
                  && ltb 0 intent.deadline_ns
                  && ltb intent.deadline_ns n.deadline_ns))
                limit_violation
                (and_then (known n.dependencies by_id [] n.node_id) (
                  ensure (leb (length n.dependencies) max_fanout) limit_violation
                    (fed n.inputs by_id n.dependencies)))))))))

-- `u64::saturating_mul`
abbrev pub saturating_mul : ℕ → ℕ → ℕ
saturating_mul a b = if leb (a * b) u64_max then a * b else u64_max

unfoldable pub check_nodes :
    ℕ → WorkflowIntent → Dict CandidateNode → List CandidateNode → ℕ → Result DagError ℕ
check_nodes now intent by_id [] total_tokens = ok total_tokens
check_nodes now intent by_id (n ∷ ns) total_tokens =
    let rest =
      check_nodes now intent by_id ns
        (saturating_add total_tokens (saturating_mul n.max_tokens n.max_attempts)) in
    and_then (check_node now intent by_id n) rest

-- The colours, 1 for a node on the way and 2 for one that is done, and the depths.
pub record Marks : Type 0 where
  pub state : Dict ℕ
  pub memo : Dict ℕ

abbrev pub is_grey : Option ℕ → Bool
is_grey (some n) = n == 1
is_grey none = false

-- The loop over the dependencies with the deepest so far; `visit` is the call on each.
unfoldable pub visit_all :
    (String → Marks → Marks × Result Stop ℕ) → List String → ℕ → Marks → Marks × Result Stop ℕ
visit_all visit [] deepest m = (m, ok deepest)
visit_all visit (d ∷ ds) deepest m =
    let (m', r) = visit d m in
    elim r [ err e ↦ (m', err e) | ok n ↦ visit_all visit ds (max deepest n) m' ]

abbrev pub mark : String → ℕ → Marks → Marks
mark id colour m = record m { state = insert id colour m.state }

abbrev pub finish : String → Marks × Result Stop ℕ → Marks × Result Stop ℕ
finish id (m, err e) = (m, err e)
finish id (m, ok deepest) = (
  record { state = insert id 2 m.state; memo = insert id (deepest + 1) m.memo },
  ok (deepest + 1),
)

-- The fuel bounds how many calls stand within one another.
unfoldable pub depth_first : Dict CandidateNode → ℕ → String → Marks → Marks × Result Stop ℕ
unfolding visit_all
depth_first by_id zero id m = (m, err exhausted)
depth_first by_id (suc fuel) id m = elim (lookup id m.memo) [
  | some d ↦ (m, ok d)
  | none ↦
      if is_grey (lookup id m.state)
      then (m, err (returned (cycle id)))
      else elim (lookup id by_id) [
        | none ↦ (mark id 1 m, err panicked)
        | some n ↦ finish id (visit_all (depth_first by_id fuel) n.dependencies 0 (mark id 1 m))
      ]
]

unfoldable pub measure :
    Dict CandidateNode → ℕ → List CandidateNode → Marks → Marks × Result Stop (Unit {0})
unfolding depth_first
measure by_id fuel [] m = (m, ok tt)
measure by_id fuel (n ∷ ns) m =
    let (m', r) = depth_first by_id fuel n.node_id m in
    elim r [
      | err e ↦ (m', err e)
      | ok d ↦
          if leb d max_depth then measure by_id fuel ns m' else (m', err (returned limit_violation))
    ]

-- What is asked before the search: the plan by its ids.
unfoldable pub check_plan :
    PlanCandidate → WorkflowIntent → ℕ → Result DagError (Dict CandidateNode)
unfolding index check_nodes
check_plan cand intent now = ensure (ltb 0 (length cand.nodes)) no_nodes (
    ensure (leb (length cand.nodes) max_nodes) limit_violation (elim (index cand.nodes []) [
      | err e ↦ err e
      | ok by_id ↦ elim (check_nodes now intent by_id cand.nodes cand.planner_tokens) [
        | err e ↦ err e
        | ok total ↦
            ensure (leb total intent.max_tokens)
              (aggregate_budget cand.planner_tokens (total - cand.planner_tokens) intent.max_tokens)
              (ok by_id)
      ]
    ]))

abbrev pub no_marks : Marks
no_marks = record { state = []; memo = [] }

unfoldable pub validate_candidate : PlanCandidate → WorkflowIntent → ℕ → Result Stop (Unit {0})
unfolding check_plan measure
validate_candidate cand intent now = elim (check_plan cand intent now) [
  | err e ↦ err (returned e)
  | ok by_id ↦ (measure by_id (length cand.nodes + 1) cand.nodes no_marks).1
]
