-- ===== src/Reaper/Writes.antt =====
-- The writes of the reapers of crates/orchestrator/src/dds.rs to the data space.
use dds_llm_orchestrator.Base.{
  ℕ, ◌≤◌, ◌≡◌, ◌⊎◌, inl, inr, pos, String, Bool, true, false, ok, err, Result, arith, List, [], ◌∷◌,
  All, Bool-cases,
}
use dds_llm_orchestrator.Base.Dict.{Dict, insert, remove, retain, keys}
use dds_llm_orchestrator.Task.{Task, TransitionError, reassign}
use dds_llm_orchestrator.Reaper.{
  MonitorEvent, heartbeat, interval, monitor_step, monitor, is_settled, dead_agents, settle, World,
  OrchestratorDds, max_task_retries, reassign_and_publish, reap_where, bury, sweep,
  reap_dead_agents, reap_stalled_tasks, republish_all, republish_pending, remove_all,
}

-- Back in the queue: without owner or destination, and within the limit of retries.
pub record IsQueued (t : Task) : Type 0 where
  pub waiting : t.status ≡ pos 0
  pub unowned : t.assigned_agent ≡ ""
  pub open_claim : t.target_agent ≡ ""
  pub within : t.retry_count ≤ max_task_retries

pub record IsAbandoned (t : Task) : Type 0 where
  pub failed : t.status ≡ pos 4
  pub reason : t.finish_reason ≡ "MAX_RETRIES_EXCEEDED"
  pub exhausted : max_task_retries ≤ t.retry_count

abbrev pub IsReissue : Task → Type 0
IsReissue t = IsQueued t ⊎ IsAbandoned t

abbrev pub AllQueued : Dict (Task × ℕ) → Type 0
AllQueued [] = Unit
AllQueued ((k, (t, since)) ∷ m) = IsQueued t × AllQueued m

-- Every write so far was a reissue, and what still waits to become visible is queued.
pub record IsSafe (o : OrchestratorDds) : Type 0 where
  pub writes : All IsReissue o.published
  pub waiting : AllQueued o.pending_reassignment

insert-AllQueued :
    (k : String) (t : Task) (since : ℕ) (m : Dict (Task × ℕ))
    → IsQueued t
    → AllQueued m
    → AllQueued (insert k (t, since) m)
unfolding insert
insert-AllQueued k t since [] q h = (q, tt)
insert-AllQueued k t since ((j, (u, s)) ∷ m) q h =
    ground (arith, insert-AllQueued k t since m q h.1)

remove-AllQueued : (k : String) (m : Dict (Task × ℕ)) → AllQueued m → AllQueued (remove k m)
unfolding remove
remove-AllQueued k [] h = tt
remove-AllQueued k ((j, (u, s)) ∷ m) h = ground (arith, remove-AllQueued k m h.1)

-- What `reassign` leaves behind on each of its exits.
abbrev Leaves : Task × Result TransitionError Bool → Type 0
Leaves (t, ok true) = IsQueued t
Leaves (t, ok false) = IsAbandoned t
Leaves (t, err e) = Unit

reassign-Leaves : (t : Task) (now : ℕ) → Leaves (reassign max_task_retries now t)
unfolding reassign
reassign-Leaves t now = ground arith

settle-IsSafe :
    (w : World) (t : Task) (r : Task × Result TransitionError Bool) (o : OrchestratorDds)
    → Leaves r
    → IsSafe o
    → IsSafe (settle w t r o)
unfolding settle
settle-IsSafe w t (t', ok true) o q h = elim (Bool-cases (w.write_succeeds t')) [
  | inl e ↦ rw e (record {
    writes = (inl q, h.writes);
    waiting = insert-AllQueued t.task_id t' w.instant o.pending_reassignment q h.waiting;
  })
  | inr e ↦ rw e (record { writes = (inl q, h.writes); waiting = h.waiting })
]
settle-IsSafe w t (t', ok false) o q h = ground arith
settle-IsSafe w t (t', err e) o q h = h

reap_where-IsSafe :
    (w : World) (picks : Task → Bool) (ts : List Task) (o : OrchestratorDds)
    → IsSafe o
    → IsSafe (reap_where w picks ts o)
unfolding reap_where
reap_where-IsSafe w picks [] o h = h
reap_where-IsSafe w picks (t ∷ ts) o h =
    reap_where-IsSafe w picks ts _ (elim (Bool-cases (picks t)) [
      | inl e ↦
          rw e (unfold reassign_and_publish in settle-IsSafe w t _ o (reassign-Leaves t w.now_ns) h)
      | inr e ↦ rw e h
    ])

bury-IsSafe : (agents : List String) (o : OrchestratorDds) → IsSafe o → IsSafe (bury agents o)
unfolding bury
bury-IsSafe [] o h = h
bury-IsSafe (a ∷ as') o h = bury-IsSafe as' _ (record { writes = h.writes; waiting = h.waiting })

sweep-IsSafe :
    (w : World) (dead : Dict ℕ) (ts : List Task) (o : OrchestratorDds)
    → IsSafe o
    → IsSafe (sweep w dead ts o)
unfolding sweep
sweep-IsSafe w [] ts o h = h
sweep-IsSafe w (d ∷ ds) ts o h = reap_where-IsSafe w _ ts _ (bury-IsSafe (keys (d ∷ ds)) o h)

republish_all-IsSafe :
    (w : World) (m : Dict (Task × ℕ)) (o : OrchestratorDds)
    → AllQueued m
    → IsSafe o
    → IsSafe (republish_all w m o)
unfolding republish_all
republish_all-IsSafe w [] o q h = h
republish_all-IsSafe w ((k, (t, since)) ∷ m) o q h =
    republish_all-IsSafe w m _ q.1 (elim (Bool-cases (is_settled w k (t, since))) [
      | inl e ↦ rw e h
      | inr e ↦ rw e (record {
        writes = (
          inl (record {
            waiting = q.0.waiting;
            unowned = q.0.unowned;
            open_claim = q.0.open_claim;
            within = q.0.within;
          }),
          h.writes,
        );
        waiting = h.waiting;
      })
    ])

remove_all-AllQueued :
    (ks : List String) (m : Dict (Task × ℕ)) → AllQueued m → AllQueued (remove_all ks m)
unfolding remove_all
remove_all-AllQueued [] m h = h
remove_all-AllQueued (k ∷ ks) m h = remove_all-AllQueued ks (remove k m) (remove-AllQueued k m h)

republish_pending-IsSafe :
    (w : World) (o : OrchestratorDds) → IsSafe o → IsSafe (republish_pending w o)
unfolding republish_pending
republish_pending-IsSafe w o h =
    let safe = republish_all-IsSafe w o.pending_reassignment o h.waiting h in
    record {
      writes = safe.writes;
      waiting =
          remove_all-AllQueued (keys (retain (is_settled w) o.pending_reassignment)) _ safe.waiting;
    }

monitor_step-IsSafe :
    (stale_after : ℕ) (e : MonitorEvent) (o : OrchestratorDds)
    → IsSafe o
    → IsSafe (monitor_step stale_after e o)
unfolding monitor_step reap_stalled_tasks reap_dead_agents
monitor_step-IsSafe stale_after (heartbeat agent instant) o h = record {
  writes = h.writes;
  waiting = h.waiting;
}
monitor_step-IsSafe stale_after (interval w ts w' ts' w'') o h =
    republish_pending-IsSafe w'' _
      (reap_where-IsSafe w' _ ts' _ (sweep-IsSafe w (dead_agents w stale_after o.last_seen) ts o h))

-- Whatever the heartbeats, the clocks, the mesh, the cached tasks and the fate of the writes, the
-- monitor only ever publishes tasks that are back in the queue, open to every agent and within
-- three retries, or tasks that failed for having no retry left; and only queued ones wait to become
-- visible. This holds from every state in which it held before.
pub monitor-IsSafe :
    (stale_after : ℕ) (es : List MonitorEvent) (o : OrchestratorDds)
    → IsSafe o
    → IsSafe (monitor stale_after es o)
unfolding monitor
monitor-IsSafe stale_after [] o h = h
monitor-IsSafe stale_after (e ∷ es) o h =
    monitor-IsSafe stale_after es _ (monitor_step-IsSafe stale_after e o h)
