-- ===== src/Task/Diagram.antt =====
-- The transition diagram of the module comment of state_machine.rs, and what the code makes of it.
use dds_llm_orchestrator.Base.{
  zero, suc, sym, ap, ◌∙◌, err, ◌⊎◌, inl, inr, false, Bool-cases, ◌≡◌, refl, ℤ, pos, negsuc, true,
  false, ok, err, ◌⊎◌, inl, inr, arith, Bool-cases,
}
use dds_llm_orchestrator.Task.{
  TransitionError, invalid, unknown_status, TaskStatus, pending, assigned, running, done, failed,
  Task, TransitionError, invalid, unknown_status, try_from, to_wire, can_transition, transition,
}

infix 40 ◌⟶◌
pub data ◌⟶◌ : TaskStatus → TaskStatus → Type 0 where
  claimed : pending ⟶ assigned
  started : assigned ⟶ running
  returned : assigned ⟶ pending
  refused : assigned ⟶ failed
  finished : running ⟶ done
  broke : running ⟶ failed
  recovered : running ⟶ pending

ruleset edges = (claimed, started, returned, refused, finished, broke, recovered)

-- A status survives the wire.
pub try_from-to_wire : (s : TaskStatus) → try_from (to_wire s) ≡ ok s
unfolding try_from to_wire
try_from-to_wire pending = refl
try_from-to_wire assigned = refl
try_from-to_wire running = refl
try_from-to_wire done = refl
try_from-to_wire failed = refl

pub to_wire-try_from : (v : ℤ) (s : TaskStatus) → try_from v ≡ ok s → to_wire s ≡ v
unfolding try_from to_wire
to_wire-try_from (negsuc n) s h = cc
to_wire-try_from (pos n) s h = ground arith

pub can_transition-⟶ : (s u : TaskStatus) → can_transition s u ≡ true → s ⟶ u
unfolding can_transition
can_transition-⟶ s u h = grind (arith, edges)

pub ⟶-can_transition : {s u : TaskStatus} → s ⟶ u → can_transition s u ≡ true
unfolding can_transition
⟶-can_transition claimed = refl
⟶-can_transition started = refl
⟶-can_transition returned = refl
⟶-can_transition refused = refl
⟶-can_transition finished = refl
⟶-can_transition broke = refl
⟶-can_transition recovered = refl

-- `transition` succeeds along an edge and moves the status alone.
pub transition_along :
    (t : Task) (s u : TaskStatus)
    → t.status ≡ to_wire s
    → s ⟶ u
    → transition u t ≡ (record t { status = to_wire u }, ok tt)
unfolding transition
transition_along t s u e h = ground (arith, try_from-to_wire s, ⟶-can_transition h)

-- The status on the wire, decoded.
pub decoded :
    (v : ℤ)
    → ((s : TaskStatus) × (try_from v ≡ ok s) × (v ≡ to_wire s))
      ⊎ (try_from v ≡ err (unknown_status v))
unfolding try_from to_wire
decoded (negsuc n) = inr refl
decoded (pos zero) = inl (pending, refl, refl)
decoded (pos (suc zero)) = inl (assigned, refl, refl)
decoded (pos (suc (suc zero))) = inl (running, refl, refl)
decoded (pos (suc (suc (suc zero)))) = inl (done, refl, refl)
decoded (pos (suc (suc (suc (suc zero))))) = inl (failed, refl, refl)
decoded (pos (suc (suc (suc (suc (suc n)))))) = inr (ground arith)

pub to_wire-injective : (s u : TaskStatus) → to_wire s ≡ to_wire u → s ≡ u
to_wire-injective s u h = cc (try_from-to_wire s, try_from-to_wire u)

transition_refused :
    (t : Task) (s u : TaskStatus)
    → try_from t.status ≡ ok s
    → can_transition s u ≡ false
    → transition u t ≡ (t, err (invalid s u))
unfolding transition
transition_refused t s u e c = ground arith

transition_unknown :
    (t : Task) (u : TaskStatus)
    → try_from t.status ≡ err (unknown_status t.status)
    → transition u t ≡ (t, err (unknown_status t.status))
unfolding transition
transition_unknown t u e = ground arith

-- `transition` succeeds exactly when the wire holds a known status with an edge to the wanted one;
-- then it moves the status alone, and in every other case it leaves the task untouched.
pub transition_exact :
    (t : Task) (u : TaskStatus)
    → ((s : TaskStatus) × (t.status ≡ to_wire s)
        × (s ⟶ u)
        × (transition u t ≡ (record t { status = to_wire u }, ok tt)))
      ⊎ (((s : TaskStatus) → t.status ≡ to_wire s → ¬ (s ⟶ u))
          × (e : TransitionError) × (transition u t ≡ (t, err e)))
transition_exact t u = elim (decoded t.status) [
  | inl (s, e, w) ↦ elim (Bool-cases (can_transition s u)) [
    | inl c ↦ inl (s, w, can_transition-⟶ s u c, transition_along t s u w (can_transition-⟶ s u c))
    | inr c ↦ inr (
      λ r p h. cc (to_wire-injective s r (sym w ∙ p), ⟶-can_transition h),
      invalid s u,
      transition_refused t s u e c,
    )
  ]
  | inr e ↦ inr (
    λ r p h. cc (try_from-to_wire r, ap try_from p),
    unknown_status t.status,
    transition_unknown t u e,
  )
]
