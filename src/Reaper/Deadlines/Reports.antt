-- ===== src/Reaper/Deadlines/Reports.antt =====
-- What `check_task_deadlines` of crates/orchestrator/src/dds.rs reports, and how often.
use dds_llm_orchestrator.Base.{
  ℕ, zero, suc, ◌+◌, ◌-◌, ◌≤◌, ◌<◌, ◌≡◌, refl, ◌∙◌, arith, String, Bool, true, false, not, ◌||◌,
  List, [], ◌∷◌, length, select, str_eq, ltb, leb, ◌==◌, inl, inr, Bool-cases, eq_iff, leb→le,
  le→leb, ltb→lt, ltb-false→le, if◌then◌else◌,
}
use dds_llm_orchestrator.Base.Dict.{mem}
use dds_llm_orchestrator.Task.{Task}
use dds_llm_orchestrator.Reaper.Deadlines.{
  reported_deadlines_max, DeadlineWatch, half, drop, evict, is_finished, check_deadline,
  check_task_deadlines,
}

length-drop : (n : ℕ) (ks : List String) → length (drop n ks) ≡ length ks - n
length-drop zero ks = omega arith
length-drop (suc n) [] = omega arith
length-drop (suc n) (k ∷ ks) = omega (arith, length-drop n ks)

length-select : (p : String → Bool) (ks : List String) → length (select p ks) ≤ length ks
length-select p [] = omega arith
length-select p (k ∷ ks) = ground (arith, length-select p ks)

half-pos : (n : ℕ) → 1 < n → 0 < half n
unfolding half
half-pos zero h = omega arith
half-pos (suc zero) h = omega arith
half-pos (suc (suc n)) h = omega arith

halved :
    (n a d : ℕ)
    → d ≡ a - half n
    → a ≡ n
    → n ≤ reported_deadlines_max + 1
    → d ≤ reported_deadlines_max
halved n a d e q l = elim (Bool-cases (ltb 1 n)) [
  | inl y ↦ omega (arith, half-pos n (ltb→lt 1 n y), e, q, l)
  | inr m ↦ omega (arith, ltb-false→le 1 n m, e, q, l)
]

length-evict :
    (arrange : List String → List String) (is_over : String → Bool) (ks : List String)
    → ((js : List String) → length (arrange js) ≡ length js)
    → length ks ≤ reported_deadlines_max + 1
    → length (evict arrange is_over ks) ≤ reported_deadlines_max
unfolding evict
length-evict arrange is_over ks h l =
    let live = select (λ k. not (is_over k)) ks in
    elim (Bool-cases (leb (length ks) reported_deadlines_max)) [
      | inl y ↦ rw (y, evict) (leb→le (length ks) reported_deadlines_max y)
      | inr n ↦ elim (Bool-cases (leb (length live) reported_deadlines_max)) [
        | inl y ↦ rw (n, y, evict) (leb→le (length live) reported_deadlines_max y)
        | inr m ↦
            rw (n, m, evict)
              (halved (length live) (length (arrange live)) _ (length-drop _ (arrange live))
                (h live) (omega (arith, length-select (λ k. not (is_over k)) ks, l)))
      ]
    ]

-- The set keeps within its limit.
abbrev pub IsWithin : DeadlineWatch → Type 0
IsWithin w = length w.reported ≤ reported_deadlines_max

either_way {ℓ} :
    (P : DeadlineWatch → Type ℓ) (b : Bool) (v w : DeadlineWatch)
    → P v
    → P w
    → P (if b then v else w)
either_way P true v w p q = p
either_way P false v w p q = q

check_deadline-IsWithin :
    (arrange : List String → List String) (is_over : String → Bool) (now : ℕ) (t : Task)
    (w : DeadlineWatch)
    → ((js : List String) → length (arrange js) ≡ length js)
    → IsWithin w
    → IsWithin (check_deadline arrange is_over now t w)
unfolding check_deadline
check_deadline-IsWithin arrange is_over now t w h l =
    either_way IsWithin (str_eq t.task_id "" || mem t.task_id w.reported) _ _ l (
      either_way IsWithin (is_finished t.status) _ _
        (omega (arith, l, length-select (λ k. not (str_eq k t.task_id)) w.reported))
        (either_way IsWithin (t.created_at_ns == 0 || t.deadline_ns == 0) _ _ l (
          either_way IsWithin (ltb t.deadline_ns now) _ _
            (length-evict arrange is_over (t.task_id ∷ w.reported) h (omega (arith, l))) l)))

-- Where the walk over the set meets each element once, a sweep keeps the set of reported tasks within
-- 10000, however many tasks it sees and whatever has become of them.
pub check_task_deadlines-IsWithin :
    (arrange : List String → List String) (is_over : String → Bool) (now : ℕ) (ts : List Task)
    (w : DeadlineWatch)
    → ((js : List String) → length (arrange js) ≡ length js)
    → IsWithin w
    → IsWithin (check_task_deadlines arrange is_over now ts w)
unfolding check_task_deadlines
check_task_deadlines-IsWithin arrange is_over now [] w h l = l
check_task_deadlines-IsWithin arrange is_over now (t ∷ ts) w h l =
    check_task_deadlines-IsWithin arrange is_over now ts _ h
      (check_deadline-IsWithin arrange is_over now t w h l)

-- How often a task stands in a log.
abbrev pub occurrences : String → List String → ℕ
occurrences id [] = 0
occurrences id (k ∷ ks) = (if str_eq k id then 1 else 0) + occurrences id ks

-- The task is still on the set, no more often in the log, and the set has at most one task more.
abbrev IsKept : String → DeadlineWatch → DeadlineWatch → Type 0
IsKept id w w' =
    (mem id w'.reported ≡ true)
    × (occurrences id w'.missed ≡ occurrences id w.missed)
    × (length w'.reported ≤ length w.reported + 1)

mem-apart :
    (id k : String) (ks : List String) → mem id ks ≡ true → mem k ks ≡ false → str_eq k id ≡ false
mem-apart id k ks m n = elim (Bool-cases (str_eq k id)) [
  | inl y ↦ ground (arith, eq_iff k id)
  | inr a ↦ a
]

mem-select :
    (id gone : String) (ks : List String)
    → str_eq gone id ≡ false
    → mem id ks ≡ true
    → mem id (select (λ k. not (str_eq k gone)) ks) ≡ true
unfolding mem
mem-select id gone [] a m = m
mem-select id gone (k ∷ ks) a m =
    ground (arith, mem-select id gone ks a, eq_iff k gone, eq_iff k id, eq_iff gone id)

evict-small :
    (arrange : List String → List String) (is_over : String → Bool) (ks : List String)
    → length ks ≤ reported_deadlines_max
    → evict arrange is_over ks ≡ ks
unfolding evict
evict-small arrange is_over ks l = rw (le→leb (length ks) reported_deadlines_max l, evict) refl

check_deadline-IsKept :
    (arrange : List String → List String) (is_over : String → Bool) (now : ℕ) (t : Task)
    (id : String) (w : DeadlineWatch)
    → length w.reported + 1 ≤ reported_deadlines_max
    → mem id w.reported ≡ true
    → IsKept id w (check_deadline arrange is_over now t w)
unfolding check_deadline mem
check_deadline-IsKept arrange is_over now t id w l m =
    elim (Bool-cases (str_eq t.task_id "" || mem t.task_id w.reported)) [
      | inl y ↦ rw (y, check_deadline) same
      | inr n ↦
          let a : str_eq t.task_id id ≡ false =
            mem-apart id t.task_id w.reported m (ground (arith, n)) in
          rw
            (
              n,
              check_deadline,
              evict-small arrange is_over (t.task_id ∷ w.reported) (omega (arith, l)),
            )
            (either_way (IsKept id w) (is_finished t.status) _ _
              (
                mem-select id t.task_id w.reported a m,
                refl,
                omega (arith, length-select (λ k. not (str_eq k t.task_id)) w.reported),
              )
              (either_way (IsKept id w) (t.created_at_ns == 0 || t.deadline_ns == 0) _ _ same (
                either_way (IsKept id w) (ltb t.deadline_ns now) _ _
                  (ground (arith, a, m), ground (arith, a), omega arith) same)))
    ]
  where
    same : IsKept id w w
    same = (m, refl, omega arith)

-- While the set has room for every task of the sweep, a task that was reported is not reported again,
-- and it stays on the set, also when the sweep finds it finished.
pub check_task_deadlines_once :
    (arrange : List String → List String) (is_over : String → Bool) (now : ℕ) (ts : List Task)
    (id : String) (w : DeadlineWatch)
    → length w.reported + length ts ≤ reported_deadlines_max
    → mem id w.reported ≡ true
    → let w' = check_task_deadlines arrange is_over now ts w in
      (mem id w'.reported ≡ true) × (occurrences id w'.missed ≡ occurrences id w.missed)
unfolding check_task_deadlines
check_task_deadlines_once arrange is_over now [] id w l m = (m, refl)
check_task_deadlines_once arrange is_over now (t ∷ ts) id w l m =
    let (m', o, k) = check_deadline-IsKept arrange is_over now t id w (omega (arith, l)) m in
    let (m'', o') =
      check_task_deadlines_once arrange is_over now ts id _ (omega (arith, l, k)) m' in
    (m'', o' ∙ o)
