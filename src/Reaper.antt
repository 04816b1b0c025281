-- ===== src/Reaper.antt =====
-- The reapers of crates/orchestrator/src/dds.rs: `reap_dead_agents`, `reassign_and_publish`,
-- `republishe_reatribuicoes_pendentes`, `reap_stalled_tasks`. What the data space answers is a
-- parameter: whether a write succeeds, and what a task reads as on the mesh.
pub mod Writes
pub mod Liveliness
pub mod Progress
pub mod Deadlines
use dds_llm_orchestrator.Base.{
  ℕ, ◌+◌, ◌-◌, ◌<◌, ℤ, pos, negsuc, String, Bool, true, false, not, ◌&&◌, ◌||◌, Result, ok, err,
  ltb, ◌==◌, if◌then◌else◌, str_eq, Option, none, some, List, [], ◌∷◌, ◌++◌,
}
use dds_llm_orchestrator.Base.Dict.{Dict, lookup, insert, remove, retain, contains_key, keys}
use dds_llm_orchestrator.Task.{Task, TransitionError, reassign}
use dds_llm_orchestrator.Claim.{is_status, is_empty}

abbrev pub max_task_retries : ℕ
max_task_retries = 3

abbrev pub assigned_stall_after_ns : ℕ
assigned_stall_after_ns = 30000000000

abbrev pub running_stall_after_ns : ℕ
running_stall_after_ns = 60000000000

abbrev pub reassign_visibility_ttl_ns : ℕ
reassign_visibility_ttl_ns = 60000000000

-- The part of `OrchestratorDds` that the reapers touch. `published` and `violations` log what was
-- handed to the data space, newest first; an `Instant` is a number of nanoseconds.
pub record OrchestratorDds : Type 0 where
  pub last_seen : Dict ℕ
  pub pending_reassignment : Dict (Task × ℕ)
  pub published : List Task
  pub violations : List String

-- What one call of a reaper sees of the world: the wall clock, the monotonic clock, the fate of a
-- write and the mesh.
pub record World : Type 0 where
  pub now_ns : ℕ
  pub instant : ℕ
  pub write_succeeds : Task → Bool
  pub read_task_mesh : String → Option Task

-- `write_task_without_ownership`
abbrev pub publish : Task → OrchestratorDds → OrchestratorDds
publish t o = record o { published = t ∷ o.published }

abbrev after_write : World → Task → Task → Bool → OrchestratorDds → OrchestratorDds
after_write w task reassigned requeued o =
    if w.write_succeeds reassigned && requeued
    then record o {
      pending_reassignment = insert task.task_id (reassigned, w.instant) o.pending_reassignment;
    }
    else o

unfoldable pub settle :
    World → Task → Task × Result TransitionError Bool → OrchestratorDds → OrchestratorDds
settle w task (reassigned, ok requeued) o =
    after_write w task reassigned requeued (publish reassigned o)
settle w task (reassigned, err e) o = o

unfoldable pub reassign_and_publish : World → Task → OrchestratorDds → OrchestratorDds
unfolding settle
reassign_and_publish w task o = settle w task (reassign max_task_retries w.now_ns task) o

-- `reassign_and_publish` on the tasks of the cache that a test picks.
unfoldable pub reap_where : World → (Task → Bool) → List Task → OrchestratorDds → OrchestratorDds
reap_where w picks [] o = o
reap_where w picks (t ∷ ts) o =
    reap_where w picks ts (if picks t then reassign_and_publish w t o else o)

unfoldable pub is_dead : World → ℕ → ℕ → Bool
is_dead w stale_after seen = ltb stale_after (w.instant - seen)

unfoldable pub dead_agents : World → ℕ → Dict ℕ → Dict ℕ
unfolding is_dead
dead_agents w stale_after = retain (λ agent seen. is_dead w stale_after seen)

-- The violation of each dead agent is published and the agent forgotten.
unfoldable pub bury : List String → OrchestratorDds → OrchestratorDds
bury [] o = o
bury (agent ∷ rest) o =
    bury rest (record o { violations = agent ∷ o.violations; last_seen = remove agent o.last_seen })

abbrev pub owned_by_dead : Dict ℕ → Task → Bool
owned_by_dead dead t =
    contains_key t.assigned_agent dead && (is_status t.status 1 || is_status t.status 2)

-- The rest of `reap_dead_agents`, once the dead are known.
unfoldable pub sweep : World → Dict ℕ → List Task → OrchestratorDds → OrchestratorDds
sweep w [] tasks o = o
sweep w (d ∷ ds) tasks o = reap_where w (owned_by_dead (d ∷ ds)) tasks (bury (keys (d ∷ ds)) o)

unfoldable pub reap_dead_agents : World → ℕ → List Task → OrchestratorDds → OrchestratorDds
unfolding sweep
reap_dead_agents w stale_after tasks o = sweep w (dead_agents w stale_after o.last_seen) tasks o

unfoldable pub is_stalled : ℕ → Task → Bool
is_stalled now t =
    if is_status t.status 1
    then ltb 0 t.assigned_at_ns && ltb assigned_stall_after_ns (now - t.assigned_at_ns)
    else if is_status t.status 2
    then ltb 0 t.started_at_ns && ltb running_stall_after_ns (now - t.started_at_ns)
    else false

unfoldable pub reap_stalled_tasks : World → List Task → OrchestratorDds → OrchestratorDds
unfolding is_stalled
reap_stalled_tasks w tasks o = reap_where w (is_stalled w.now_ns) tasks o

-- The mesh already shows the reassignment.
unfoldable pub is_visible : World → String → Task → Bool
is_visible w task_id pending = elim (w.read_task_mesh task_id) [
  | some mesh ↦
      is_status mesh.status 0
      && (mesh.retry_count == pending.retry_count && is_empty mesh.assigned_agent)
  | none ↦ false
]

abbrev pub is_settled : World → String → Task × ℕ → Bool
is_settled w task_id (pending, since) =
    is_visible w task_id pending || ltb reassign_visibility_ttl_ns (w.instant - since)

-- The loop over `pending_reassignment`: what is published again, and what is done with.
unfoldable pub republish_all : World → Dict (Task × ℕ) → OrchestratorDds → OrchestratorDds
republish_all w [] o = o
republish_all w ((task_id, (pending, since)) ∷ rest) o = republish_all w rest (
    if is_settled w task_id (pending, since)
    then o
    else publish (record pending { created_at_ns = w.now_ns }) o)

unfoldable pub remove_all : List String → Dict (Task × ℕ) → Dict (Task × ℕ)
remove_all [] m = m
remove_all (k ∷ ks) m = remove_all ks (remove k m)

unfoldable pub republish_pending : World → OrchestratorDds → OrchestratorDds
unfolding republish_all remove_all
republish_pending w o =
    let finished = keys (retain (is_settled w) o.pending_reassignment) in
    let o' = republish_all w o.pending_reassignment o in
    record o' { pending_reassignment = remove_all finished o'.pending_reassignment }

-- What the loop of `spawn_registry_monitor` wakes up for: an agent's heartbeat, or the interval,
-- where each of the three sweeps reads the clocks and the task cache anew. The agent registry that
-- a heartbeat also feeds is not part of this state.
pub data MonitorEvent : Type 0 where
  heartbeat : String → ℕ → MonitorEvent
  interval : World → List Task → World → List Task → World → MonitorEvent

unfoldable pub monitor_step : ℕ → MonitorEvent → OrchestratorDds → OrchestratorDds
monitor_step stale_after (heartbeat agent instant) o = record o {
  last_seen = insert agent instant o.last_seen;
}
monitor_step stale_after (interval w ts w' ts' w'') o =
    republish_pending w'' (reap_stalled_tasks w' ts' (reap_dead_agents w stale_after ts o))

unfoldable pub monitor : ℕ → List MonitorEvent → OrchestratorDds → OrchestratorDds
unfolding monitor_step
monitor stale_after [] o = o
monitor stale_after (e ∷ es) o = monitor stale_after es (monitor_step stale_after e o)
