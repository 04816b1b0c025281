-- ===== src/Task/Reassign.antt =====
-- The branches of `reassign` of crates/orchestrator/src/state_machine.rs.
use dds_llm_orchestrator.Base.{
  ℕ, ◌≡◌, ◌≢◌, ◌⊎◌, pos, true, false, ok, is_ok, arith, leb, if◌then◌else◌,
}
use dds_llm_orchestrator.Task.{Task, reassign, requeued}

-- What the task becomes at the limit.
abbrev pub abandoned : ℕ → Task → Task
abandoned now t = record t {
  status = pos 4;
  completed_at_ns = now;
  finish_reason = "MAX_RETRIES_EXCEEDED";
}

abbrev pub IsActive : Task → Type 0
IsActive t = (t.status ≡ pos 1) ⊎ (t.status ≡ pos 2)

-- An assigned or running task goes back to the queue below the limit, and fails at it.
pub reassign_active :
    (t : Task) (max now : ℕ)
    → IsActive t
    → reassign max now t ≡ (
        if leb max t.retry_count
        then (abandoned now t, ok false)
        else (requeued now (record t { status = pos 0 }), ok true))
unfolding reassign
reassign_active t max now h = ground arith

-- Any other task is refused and left as it was.
pub reassign_inactive :
    (t : Task) (max now : ℕ)
    → t.status ≢ pos 1
    → t.status ≢ pos 2
    → ((reassign max now t).0 ≡ t) × (is_ok (reassign max now t).1 ≡ false)
unfolding reassign
reassign_inactive t max now h k = ground arith

pub reassign-requeued :
    (t t' : Task) (max now : ℕ)
    → reassign max now t ≡ (t', ok true)
    → t' ≡ requeued now (record t { status = pos 0 })
unfolding reassign
reassign-requeued t t' max now e = ground arith
