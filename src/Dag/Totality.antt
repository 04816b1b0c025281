-- ===== src/Dag/Totality.antt =====
-- The fuel and the colours of the search of crates/workflow-engine/src/dag.rs.
use dds_llm_orchestrator.Base.{
  ℕ, zero, suc, ◌+◌, ◌≤◌, ◌<◌, max, ◌≡◌, ◌⊎◌, inl, inr, subst, String, true, false, Option, none,
  some, Option-cases, Bool-cases, Result, ok, err, List, [], ◌∷◌, str_eq, All, arith, eq_iff,
}
use dds_llm_orchestrator.Base.Dict.{Dict, lookup, insert, lookup-insert, contains_key}
use dds_llm_orchestrator.Dag.{
  CandidateNode, Stop, returned, panicked, exhausted, Marks, is_grey, visit_all, mark, finish,
  depth_first,
}

-- A node without a depth is new or on the way.
abbrev pub Settled : Marks → Type 0
Settled m =
    (k : String) → lookup k m.memo ≡ none → (lookup k m.state ≡ none) ⊎ (lookup k m.state ≡ some 1)

abbrev one_if_none : Option ℕ → ℕ
one_if_none none = 1
one_if_none (some c) = 0

-- The nodes without a colour.
abbrev pub whites : Dict CandidateNode → Dict ℕ → ℕ
whites [] state = 0
whites ((k, n) ∷ by_id) state = one_if_none (lookup k state) + whites by_id state

abbrev pub IsKnown : Dict CandidateNode → String → Type 0
IsKnown by_id k = contains_key k by_id ≡ true

-- The dependencies of a node are nodes.
abbrev pub Closed : Dict CandidateNode → Type 0
Closed by_id =
    (k : String) (n : CandidateNode) → lookup k by_id ≡ some n → All (IsKnown by_id) n.dependencies

-- An answer of the code's own, and no more white nodes than before.
abbrev pub Answers : Dict CandidateNode → ℕ → Marks × Result Stop ℕ → Type 0
Answers by_id most (m, ok d) = Settled m × (whites by_id m.state ≤ most)
Answers by_id most (m, err (returned e)) = Unit
Answers by_id most (m, err panicked) = ⊥
Answers by_id most (m, err exhausted) = ⊥

whites-insert :
    (by_id : Dict CandidateNode) (k : String) (c : ℕ) (state : Dict ℕ)
    → whites by_id (insert k c state) ≤ whites by_id state
whites-insert [] k c state = omega arith
whites-insert ((j, n) ∷ by_id) k c state =
    ground (arith, whites-insert by_id k c state, lookup-insert k j c state)

whites-insert_white :
    (by_id : Dict CandidateNode) (k : String) (c : ℕ) (state : Dict ℕ)
    → lookup k state ≡ none
    → contains_key k by_id ≡ true
    → whites by_id (insert k c state) < whites by_id state
unfolding contains_key lookup
whites-insert_white [] k c state w h = ground arith
whites-insert_white ((j, n) ∷ by_id) k c state w h = ground (
  arith,
  whites-insert by_id k c state,
  whites-insert_white by_id k c state w,
  lookup-insert k j c state,
  eq_iff j k,
  eq_iff k j,
)

module _ (by_id : Dict CandidateNode) (visit : String → Marks → Marks × Result Stop ℕ)
    (room : ℕ) where
  next-Answers :
      (ds : List String) (n : ℕ) (w : Marks × Result Stop ℕ)
      → ((n : ℕ) (m : Marks)
          → Settled m
          → whites by_id m.state ≤ room
          → Answers by_id room (visit_all visit ds n m))
      → Answers by_id room w
      → Answers by_id room (
          let (m', r) = w in
          elim r [ err e ↦ (m', err e) | ok e ↦ visit_all visit ds (max n e) m' ])
  next-Answers ds n (m', ok e) rest (settled, l) = rest (max n e) m' settled l
  next-Answers ds n (m', err (returned e)) rest h = tt
  next-Answers ds n (m', err panicked) rest h = h
  next-Answers ds n (m', err exhausted) rest h = h

  visit_all-Answers :
      ((id : String) (m : Marks)
        → Settled m
        → whites by_id m.state ≤ room
        → IsKnown by_id id
        → Answers by_id room (visit id m))
      → (ds : List String) (n : ℕ) (m : Marks) → Settled m
      → whites by_id m.state ≤ room
      → All (IsKnown by_id) ds
      → Answers by_id room (visit_all visit ds n m)
  unfolding visit_all
  visit_all-Answers step [] n m s l k = (s, l)
  visit_all-Answers step (d ∷ ds) n m s l (k, ks) =
      next-Answers ds n (visit d m) (λ n m s l. visit_all-Answers step ds n m s l ks)
        (step d m s l k)

mark-Settled : (id : String) (m : Marks) → Settled m → Settled (mark id 1 m)
mark-Settled id m s k o = elim (Bool-cases (str_eq id k)) [
  | inl y ↦ inr (ground (arith, lookup-insert id k 1 m.state))
  | inr a ↦
      subst (λ c. (c ≡ none) ⊎ (c ≡ some 1)) (ground (arith, lookup-insert id k 1 m.state)) (s k o)
]

finish-Answers :
    (by_id : Dict CandidateNode) (id : String) (room most : ℕ) (w : Marks × Result Stop ℕ)
    → room ≤ most
    → Answers by_id room w
    → Answers by_id most (finish id w)
finish-Answers by_id id room most (m, err (returned e)) r h = tt
finish-Answers by_id id room most (m, err panicked) r h = h
finish-Answers by_id id room most (m, err exhausted) r h = h
finish-Answers by_id id room most (m, ok e) r (s, l) =
    (settled, omega (arith, l, r, whites-insert by_id id 2 m.state))
  where
    settled : Settled (record { state = insert id 2 m.state; memo = insert id (e + 1) m.memo })
    settled k o = elim (Bool-cases (str_eq id k)) [
      | inl y ↦ absurd (ground (arith, lookup-insert id k (e + 1) m.memo))
      | inr a ↦
          subst (λ c. (c ≡ none) ⊎ (c ≡ some 1)) (ground (arith, lookup-insert id k 2 m.state))
            (s k (ground (arith, lookup-insert id k (e + 1) m.memo)))
    ]

white_of :
    (id : String) (m : Marks)
    → Settled m
    → lookup id m.memo ≡ none
    → is_grey (lookup id m.state) ≡ false
    → lookup id m.state ≡ none
white_of id m s o g = elim (s id o) [ inl w ↦ w | inr y ↦ ground (arith) ]

Answers-le :
    (by_id : Dict CandidateNode) (a b : ℕ) (w : Marks × Result Stop ℕ)
    → a ≤ b
    → Answers by_id a w
    → Answers by_id b w
Answers-le by_id a b (m, ok d) l (s, l') = (s, omega (arith, l, l'))
Answers-le by_id a b (m, err (returned e)) l h = h
Answers-le by_id a b (m, err panicked) l h = h
Answers-le by_id a b (m, err exhausted) l h = h

unknown_absurd :
    (id : String) (by_id : Dict CandidateNode)
    → lookup id by_id ≡ none
    → contains_key id by_id ≡ true
    → ⊥
unfolding contains_key
unknown_absurd id by_id u k = ground arith

pub depth_first-Answers :
    (by_id : Dict CandidateNode) (fuel : ℕ) (id : String) (m : Marks)
    → Closed by_id
    → whites by_id m.state < fuel
    → Settled m
    → IsKnown by_id id
    → Answers by_id (whites by_id m.state) (depth_first by_id fuel id m)
unfolding depth_first
depth_first-Answers by_id zero id m closed f s k = absurd (omega (arith, f))
depth_first-Answers by_id (suc fuel) id m closed f s k = elim (Option-cases (lookup id m.memo)) [
  | inr (d, q) ↦ rw (q, depth_first) (s, omega arith)
  | inl o ↦ elim (Bool-cases (is_grey (lookup id m.state))) [
    | inl g ↦ rw (o, g, depth_first) tt
    | inr white ↦ elim (Option-cases (lookup id by_id)) [
      | inl u ↦ absurd (unknown_absurd id by_id u k)
      | inr (n, q) ↦
          let fewer : whites by_id (insert id 1 m.state) < whites by_id m.state =
            whites-insert_white by_id id 1 m.state (white_of id m s o white) k in
          let room = whites by_id (insert id 1 m.state) in
          rw (o, white, q, depth_first)
            (finish-Answers by_id id room (whites by_id m.state) _ (omega (arith, fewer)) (
              visit_all-Answers by_id (depth_first by_id fuel) room
                (λ id' m' s' l k'.
                  Answers-le by_id (whites by_id m'.state) room _ l (
                    depth_first-Answers by_id fuel id' m' closed (omega (arith, l, fewer, f)) s'
                      k'))
                n.dependencies 0 (mark id 1 m) (mark-Settled id m s) (omega arith) (closed id n q)))
    ]
  ]
]
