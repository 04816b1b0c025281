-- ===== src/Task/History.antt =====
-- Histories of calls of state_machine.rs on one task.
use dds_llm_orchestrator.Base.{
  negsuc, ap, ℕ, ◌+◌, ◌<◌, ◌≤◌, ◌≡◌, refl, ◌⊎◌, inl, inr, Bool, true, false, ok, err, arith, leb,
  ◌==◌, if◌then◌else◌, List, [], ◌∷◌, u32_mod, pos, ℤ, ◌&&◌,
}
use dds_llm_orchestrator.Task.{
  TaskStatus, pending, assigned, running, done, failed, Task, unknown_status, try_from, to_wire,
  can_transition, step, run, Call, assigns, starts, completes, fails, reassigns,
}
use dds_llm_orchestrator.Task.Diagram.{◌⟶◌, decoded, can_transition-⟶}

-- The status that a call asks for.
pub target : Call → Task → TaskStatus
target (assigns agent now) t = assigned
target (starts now) t = running
target (completes now) t = done
target (fails reason now) t = failed
target (reassigns max now) t = if leb max t.retry_count then failed else pending

step_status :
    (c : Call) (t : Task) (s : TaskStatus)
    → try_from t.status ≡ ok s
    → (step c t).1 ≡ true
    → ((step c t).0.status ≡ to_wire (target c t)) × (can_transition s (target c t) ≡ true)
unfolding step target
step_status (assigns agent now) t s e h = ground arith
step_status (starts now) t s e h = ground arith
step_status (completes now) t s e h = ground arith
step_status (fails reason now) t s e h = ground arith
step_status (reassigns max now) t s e h = ground arith

step_unknown :
    (c : Call) (t : Task) → try_from t.status ≡ err (unknown_status t.status) → (step c t).1 ≡ false
unfolding step
step_unknown (assigns agent now) t e = ground arith
step_unknown (starts now) t e = ground arith
step_unknown (completes now) t e = ground arith
step_unknown (fails reason now) t e = ground arith
step_unknown (reassigns max now) t e = ground arith

-- A call that succeeds moves the status along one edge of the diagram.
pub step_follows :
    (c : Call) (t : Task)
    → (step c t).1 ≡ true
    → (s u : TaskStatus) × (t.status ≡ to_wire s) × ((step c t).0.status ≡ to_wire u) × (s ⟶ u)
step_follows c t h = elim (decoded t.status) [
  | inl (s, e, w) ↦
      let (moved, allowed) = step_status c t s e h in
      (s, target c t, w, moved, can_transition-⟶ s (target c t) allowed)
  | inr e ↦ cc (step_unknown c t e)
]

-- A call that fails leaves the whole task as it was, whatever it was about to write.
pub step_failed_unchanged : (c : Call) (t : Task) → (step c t).1 ≡ false → (step c t).0 ≡ t
unfolding step
step_failed_unchanged (assigns agent now) t h = ground arith
step_failed_unchanged (starts now) t h = ground arith
step_failed_unchanged (completes now) t h = ground arith
step_failed_unchanged (fails reason now) t h = ground arith
step_failed_unchanged (reassigns max now) t h = ground arith

-- done or failed
abbrev pub IsTerminal : Task → Type 0
IsTerminal t = (t.status ≡ pos 3) ⊎ (t.status ≡ pos 4)

step_terminal : (c : Call) (t : Task) → IsTerminal t → step c t ≡ (t, false)
unfolding step to_wire
step_terminal (assigns agent now) t h = ground arith
step_terminal (starts now) t h = ground arith
step_terminal (completes now) t h = ground arith
step_terminal (fails reason now) t h = ground arith
step_terminal (reassigns max now) t h = ground arith

-- A task that is done or failed is left untouched by every history of calls.
pub run_terminal : (cs : List Call) (t : Task) → IsTerminal t → run cs t ≡ t
unfolding run
run_terminal [] t h = refl
run_terminal (c ∷ cs) t h =
    rw (ap (λ (r : Task × Bool). run cs r.0) (step_terminal c t h)) (run_terminal cs t h)

-- Every reassignment of the history works under this limit.
abbrev pub Limited : ℕ → List Call → Type 0
Limited max [] = Unit {0}
Limited max (reassigns m now ∷ cs) = (m ≡ max) × Limited max cs
Limited max (c ∷ cs) = Limited max cs

is_pending : ℤ → Bool
is_pending (pos n) = n == 0
is_pending (negsuc n) = false

-- One for a call that sent the task back to the queue.
pub requeue_of : Call → Task → ℕ
unfolding step is_pending
requeue_of c t = if (step c t).1 && is_pending (step c t).0.status then 1 else 0

-- How often a history sent the task back to the queue.
pub requeues : List Call → Task → ℕ
unfolding requeue_of
requeues [] t = 0
requeues (c ∷ cs) t = requeue_of c t + requeues cs (step c t).0

step_retries :
    (max : ℕ) (c : Call) (t : Task)
    → max < u32_mod
    → Limited max (c ∷ [])
    → t.retry_count ≤ max
    → ((step c t).0.retry_count ≡ t.retry_count + requeue_of c t) × ((step c t).0.retry_count ≤ max)
unfolding requeue_of
step_retries max (assigns agent now) t b l h = ground arith
step_retries max (starts now) t b l h = ground arith
step_retries max (completes now) t b l h = ground arith
step_retries max (fails reason now) t b l h = ground arith
step_retries max (reassigns m now) t b l h = ground arith

Limited-head : (max : ℕ) (c : Call) (cs : List Call) → Limited max (c ∷ cs) → Limited max (c ∷ [])
Limited-head max (reassigns m now) cs l = (l.0, tt)
Limited-head max _ cs l = tt

Limited-tail : (max : ℕ) (c : Call) (cs : List Call) → Limited max (c ∷ cs) → Limited max cs
Limited-tail max (reassigns m now) cs l = l.1
Limited-tail max (assigns agent now) cs l = l
Limited-tail max (starts now) cs l = l
Limited-tail max (completes now) cs l = l
Limited-tail max (fails reason now) cs l = l

-- Under one limit on reassignments that fits a u32, and from a retry counter within it, the retry
-- counter counts them and never passes the limit: no history sends a task back to the queue more
-- often than that.
pub requeues_bounded :
    (max : ℕ) (cs : List Call) (t : Task)
    → max < u32_mod
    → Limited max cs
    → t.retry_count ≤ max
    → ((run cs t).retry_count ≡ t.retry_count + requeues cs t)
      × (t.retry_count + requeues cs t ≤ max)
unfolding run requeues
requeues_bounded max [] t b l h = omega arith
requeues_bounded max (c ∷ cs) t b l h =
    let (counted, bounded) = step_retries max c t b (Limited-head max c cs l) h in
    let (total, under) = requeues_bounded max cs (step c t).0 b (Limited-tail max c cs l) bounded in
    omega arith

-- Nobody owns a queued task, and a task that is done says why.
pub record IsSound (t : Task) : Type 0 where
  pub unowned : t.status ≡ pos 0 → t.assigned_agent ≡ ""
  pub explained : t.status ≡ pos 3 → t.finish_reason ≡ "COMPLETION"

step-IsSound : (c : Call) (t : Task) → IsSound t → IsSound (step c t).0
unfolding step
step-IsSound (assigns agent now) t v = ground arith
step-IsSound (starts now) t v = ground arith
step-IsSound (completes now) t v = ground arith
step-IsSound (fails reason now) t v = ground arith
step-IsSound (reassigns max now) t v = ground arith

-- Every history of calls keeps queued tasks without an owner, and finished ones with their reason.
pub run-IsSound : (cs : List Call) (t : Task) → IsSound t → IsSound (run cs t)
unfolding run
run-IsSound [] t v = v
run-IsSound (c ∷ cs) t v = run-IsSound cs (step c t).0 (step-IsSound c t v)
