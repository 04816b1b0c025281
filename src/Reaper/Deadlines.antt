-- ===== src/Reaper/Deadlines.antt =====
-- `check_task_deadlines` of crates/orchestrator/src/dds.rs: which missed deadlines are reported, and
-- the set of those that were. The order in which the set is walked is a parameter, as is which tasks
-- the cache shows to be over. The count that the method answers is what `missed` grows by.
pub mod Reports
use dds_llm_orchestrator.Base.{
  ℕ, zero, suc, ◌+◌, ◌-◌, ◌≤◌, ◌<◌, ◌≡◌, refl, ◌∙◌, ap, arith, ℤ, pos, negsuc, String, Bool, true,
  false, not, ◌||◌, List, [], ◌∷◌, length, select, str_eq, ltb, leb, ◌==◌, inl, inr, Bool-cases,
  eq_iff, leb→le, le→leb, ltb→lt, ltb-false→le, if◌then◌else◌, eq_refl,
}
use dds_llm_orchestrator.Base.Dict.{mem}
use dds_llm_orchestrator.Task.{Task}

abbrev reported_deadlines_max : ℕ
reported_deadlines_max = 10000

-- The reported tasks, and the violations published, newest first.
pub record DeadlineWatch : Type 0 where
  pub reported : List String
  pub missed : List String

-- Half of a number, rounded down.
unfoldable half : ℕ → ℕ
half zero = 0
half (suc zero) = 0
half (suc (suc n)) = suc (half n)

abbrev drop : ℕ → List String → List String
drop zero ks = ks
drop (suc n) [] = []
drop (suc n) (k ∷ ks) = drop n ks

-- What is kept of a set that has grown: no task that is over or gone, then half of the rest.
unfoldable evict : (List String → List String) → (String → Bool) → List String → List String
unfolding half
evict arrange is_over ks =
    let live = select (λ k. not (is_over k)) ks in
    if leb (length ks) reported_deadlines_max
    then ks
    else if leb (length live) reported_deadlines_max
    then live
    else drop (half (length live)) (arrange live)

abbrev is_finished : ℤ → Bool
is_finished (pos n) = n == 3 || n == 4
is_finished (negsuc n) = false

-- One task of the sweep at a time.
unfoldable pub check_deadline :
    (List String → List String) → (String → Bool) → ℕ → Task → DeadlineWatch → DeadlineWatch
unfolding evict
check_deadline arrange is_over now t w =
    if str_eq t.task_id "" || mem t.task_id w.reported
    then w
    else if is_finished t.status
    then record w { reported = select (λ k. not (str_eq k t.task_id)) w.reported }
    else if t.created_at_ns == 0 || t.deadline_ns == 0
    then w
    else if ltb t.deadline_ns now
    then record {
      reported = evict arrange is_over (t.task_id ∷ w.reported);
      missed = t.task_id ∷ w.missed;
    }
    else w

unfoldable pub check_task_deadlines :
    (List String → List String) → (String → Bool) → ℕ → List Task → DeadlineWatch → DeadlineWatch
unfolding check_deadline
check_task_deadlines arrange is_over now [] w = w
check_task_deadlines arrange is_over now (t ∷ ts) w =
    check_task_deadlines arrange is_over now ts (check_deadline arrange is_over now t w)
