-- ===== src/Dag/Rank.antt =====
-- The depths that the search of crates/workflow-engine/src/dag.rs gives to the nodes that it
-- visits.
use dds_llm_orchestrator.Base.{
  ℕ, zero, suc, ◌+◌, ◌≤◌, ◌<◌, max, ◌≡◌, inl, inr, ap, ◌∙◌, subst, String, true, false, none, some,
  Option-cases, Bool-cases, Result, ok, err, List, [], ◌∷◌, str_eq, All, arith, eq_iff, eq_refl,
}
use dds_llm_orchestrator.Base.Dict.{Dict, lookup, insert, lookup-insert}
use dds_llm_orchestrator.Dag.{
  CandidateNode, Stop, Marks, is_grey, visit_all, mark, finish, depth_first,
}

-- A dependency has a depth, and one below this.
abbrev pub IsBelow : Dict ℕ → ℕ → String → Type 0
IsBelow memo d k = (e : ℕ) × (lookup k memo ≡ some e) × (e < d)

-- The depth of a node is above those of its dependencies.
abbrev pub Ranks : Dict CandidateNode → Dict ℕ → Type 0
Ranks by_id memo =
    (id : String) (d : ℕ) (n : CandidateNode)
    → lookup id memo ≡ some d
    → lookup id by_id ≡ some n
    → All (IsBelow memo d) n.dependencies

abbrev pub Keeps : Dict ℕ → Dict ℕ → Type 0
Keeps memo memo' = (id : String) (d : ℕ) → lookup id memo ≡ some d → lookup id memo' ≡ some d

-- A node on the way has no depth yet.
abbrev IsOpen : String → Marks → Type 0
IsOpen k m = (lookup k m.state ≡ some 1) × (lookup k m.memo ≡ none)

abbrev Opens : Marks → Marks → Type 0
Opens m m' = (k : String) → IsOpen k m → IsOpen k m'

abbrev pub Visits : Dict CandidateNode → String → Marks → Marks × Result Stop ℕ → Type 0
Visits by_id id m (m', ok d) =
    Ranks by_id m'.memo × Keeps m.memo m'.memo × Opens m m' × (lookup id m'.memo ≡ some d)
Visits by_id id m (m', err e) = Unit

abbrev VisitsAll : Dict CandidateNode → List String → ℕ → Marks → Marks × Result Stop ℕ → Type 0
VisitsAll by_id ds n m (m', ok e) =
    Ranks by_id m'.memo
    × Keeps m.memo m'.memo
    × Opens m m'
    × (n ≤ e)
    × All (IsBelow m'.memo (suc e)) ds
VisitsAll by_id ds n m (m', err e) = Unit

IsBelow-Keeps :
    (memo memo' : Dict ℕ) (d : ℕ) (ks : List String)
    → Keeps memo memo'
    → All (IsBelow memo d) ks
    → All (IsBelow memo' d) ks
IsBelow-Keeps memo memo' d [] k h = tt
IsBelow-Keeps memo memo' d (x ∷ xs) k ((e, q, l), h) =
    ((e, k x e q, l), IsBelow-Keeps memo memo' d xs k h)

module _ (by_id : Dict CandidateNode) (visit : String → Marks → Marks × Result Stop ℕ) where
  next_lem :
      (d : String) (ds : List String) (n : ℕ) (m : Marks) (w : Marks × Result Stop ℕ)
      → ((n : ℕ) (m : Marks) → Ranks by_id m.memo → VisitsAll by_id ds n m (visit_all visit ds n m))
      → Visits by_id d m w
      → VisitsAll by_id (d ∷ ds) n m (
          let (m', r) = w in
          elim r [ err e ↦ (m', err e) | ok e ↦ visit_all visit ds (max n e) m' ])
  next_lem d ds n m (m', err e) rest h = tt
  next_lem d ds n m (m', ok e) rest (ranks, keeps, opens, q) =
      after (visit_all visit ds (max n e) m') (rest (max n e) m' ranks)
    where
      after :
          (w : Marks × Result Stop ℕ)
          → VisitsAll by_id ds (max n e) m' w
          → VisitsAll by_id (d ∷ ds) n m w
      after (m'', err f) h = tt
      after (m'', ok f) (ranks', keeps', opens', l, below) = (
        ranks',
        (λ id x p. keeps' id x (keeps id x p)),
        (λ k p. opens' k (opens k p)),
        omega (arith, l),
        ((e, keeps' d e q, omega (arith, l)), below),
      )

  visit_all-VisitsAll :
      ((id : String) (m : Marks) → Ranks by_id m.memo → Visits by_id id m (visit id m))
      → (ds : List String) (n : ℕ) (m : Marks) → Ranks by_id m.memo
      → VisitsAll by_id ds n m (visit_all visit ds n m)
  unfolding visit_all
  visit_all-VisitsAll step [] n m h = (h, (λ id d q. q), (λ k p. p), omega arith, tt)
  visit_all-VisitsAll step (d ∷ ds) n m h =
      next_lem d ds n m (visit d m) (visit_all-VisitsAll step ds) (step d m h)

apart_of_open :
    (id k : String) (memo : Dict ℕ) (e : ℕ)
    → lookup id memo ≡ none
    → lookup k memo ≡ some e
    → str_eq id k ≡ false
apart_of_open id k memo e o q = elim (Bool-cases (str_eq id k)) [
  | inl s ↦ ground (arith, eq_iff id k)
  | inr a ↦ a
]

Keeps-insert :
    (id : String) (x : ℕ) (memo : Dict ℕ) → lookup id memo ≡ none → Keeps memo (insert id x memo)
Keeps-insert id x memo o k d q =
    ground (arith, lookup-insert id k x memo, apart_of_open id k memo d o q)

Ranks-insert :
    (by_id : Dict CandidateNode) (id : String) (e : ℕ) (n : CandidateNode) (memo : Dict ℕ)
    → Ranks by_id memo
    → lookup id by_id ≡ some n
    → lookup id memo ≡ none
    → All (IsBelow memo (suc e)) n.dependencies
    → Ranks by_id (insert id (e + 1) memo)
Ranks-insert by_id id e n memo ranks q o below k d n' r q' = elim (Bool-cases (str_eq id k)) [
  | inl s ↦
      subst (λ x. All (IsBelow (insert id (e + 1) memo) x) n'.dependencies)
        (ground (arith, lookup-insert id k (e + 1) memo))
        (subst
          (λ (x : CandidateNode). All (IsBelow (insert id (e + 1) memo) (suc e)) x.dependencies)
          (node_of q (ap (λ x. lookup x by_id) (id_of s) ∙ q'))
          (IsBelow-Keeps memo (insert id (e + 1) memo) (suc e) n.dependencies
            (Keeps-insert id (e + 1) memo o) below))
  | inr a ↦
      IsBelow-Keeps memo (insert id (e + 1) memo) d n'.dependencies (Keeps-insert id (e + 1) memo o)
        (ranks k d n' (ground (arith, lookup-insert id k (e + 1) memo)) q')
]
  where
    id_of : str_eq id k ≡ true → id ≡ k
    id_of s = ground (arith, eq_iff id k)

    node_of : {a b : CandidateNode} → lookup id by_id ≡ some a → lookup id by_id ≡ some b → a ≡ b
    node_of h h' = ground arith

-- The node goes on the way, and off it once its dependencies are done.
finish-Visits :
    (by_id : Dict CandidateNode) (id : String) (n : CandidateNode) (m : Marks)
    (w : Marks × Result Stop ℕ)
    → lookup id by_id ≡ some n
    → lookup id m.memo ≡ none
    → is_grey (lookup id m.state) ≡ false
    → VisitsAll by_id n.dependencies 0 (mark id 1 m) w
    → Visits by_id id m (finish id w)
finish-Visits by_id id n m (m', err e) q o white h = tt
finish-Visits by_id id n m (m', ok e) q o white (ranks, keeps, opens, l, below) =
    let o' = (opens id (ground (arith, lookup-insert id id 1 m.state, eq_refl id), o)).1 in
    (
      Ranks-insert by_id id e n m'.memo ranks q o' below,
      (λ k d p. Keeps-insert id (e + 1) m'.memo o' k d (keeps k d p)),
      (λ k p.
          let a : str_eq id k ≡ false = open_apart k p in
          let p' = opens k (ground (arith, lookup-insert id k 1 m.state, a, p.0), p.1) in
          (
            ground (arith, lookup-insert id k 2 m'.state, a, p'.0),
            ground (arith, lookup-insert id k (e + 1) m'.memo, a, p'.1),
          )),
      ground (arith, lookup-insert id id (e + 1) m'.memo, eq_refl id),
    )
  where
    open_apart : (k : String) → IsOpen k m → str_eq id k ≡ false
    open_apart k p = elim (Bool-cases (str_eq id k)) [
      | inl s ↦ ground (arith, eq_iff id k, p.0)
      | inr a ↦ a
    ]

pub depth_first-Visits :
    (by_id : Dict CandidateNode) (fuel : ℕ) (id : String) (m : Marks)
    → Ranks by_id m.memo
    → Visits by_id id m (depth_first by_id fuel id m)
unfolding depth_first
depth_first-Visits by_id zero id m h = tt
depth_first-Visits by_id (suc fuel) id m h = elim (Option-cases (lookup id m.memo)) [
  | inr (d, q) ↦ rw (q, depth_first) (h, (λ k e p. p), (λ k p. p), q)
  | inl o ↦ elim (Bool-cases (is_grey (lookup id m.state))) [
    | inl g ↦ rw (o, g, depth_first) tt
    | inr white ↦ elim (Option-cases (lookup id by_id)) [
      | inl u ↦ rw (o, white, u, depth_first) tt
      | inr (n, q) ↦
          rw (o, white, q, depth_first)
            (finish-Visits by_id id n m _ q o white (
              visit_all-VisitsAll by_id (depth_first by_id fuel) (depth_first-Visits by_id fuel)
                n.dependencies 0 (mark id 1 m) h))
    ]
  ]
]
