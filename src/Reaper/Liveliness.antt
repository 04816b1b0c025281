-- ===== src/Reaper/Liveliness.antt =====
-- `reap_dead_agents` of crates/orchestrator/src/dds.rs and the agents it reports.
use dds_llm_orchestrator.Base.{
  ℕ, ◌-◌, ◌≡◌, refl, sym, ◌∙◌, subst, String, Bool, arith, if◌then◌else◌, List, [], ◌∷◌, ltb, none,
  some, Result, ok, err,
}
use dds_llm_orchestrator.Base.Dict.{
  Dict, lookup, remove, keys, keep_if, Distinct, lookup-remove, lookup-retain, remove-Distinct,
  eq_empty, mem, mem-keys,
}
use dds_llm_orchestrator.Task.{Task, TransitionError}
use dds_llm_orchestrator.Reaper.{
  World, OrchestratorDds, reassign_and_publish, settle, reap_where, reap_dead_agents, bury, is_dead,
  dead_agents, owned_by_dead, sweep,
}

-- The heartbeat table without the given agents.
forget : List String → Dict ℕ → Dict ℕ
forget [] m = m
forget (a ∷ rest) m = forget rest (remove a m)

settle-last_seen :
    (w : World) (t : Task) (r : Task × Result TransitionError Bool) (o : OrchestratorDds)
    → ((settle w t r o).last_seen ≡ o.last_seen) × ((settle w t r o).violations ≡ o.violations)
unfolding settle
settle-last_seen w t (t', ok b) o = ground arith
settle-last_seen w t (t', err e) o = (refl, refl)

reassign_and_publish-last_seen :
    (w : World) (t : Task) (o : OrchestratorDds)
    → ((reassign_and_publish w t o).last_seen ≡ o.last_seen)
      × ((reassign_and_publish w t o).violations ≡ o.violations)
unfolding reassign_and_publish
reassign_and_publish-last_seen w t o = settle-last_seen w t _ o

reap_where-last_seen :
    (w : World) (picks : Task → Bool) (ts : List Task) (o : OrchestratorDds)
    → ((reap_where w picks ts o).last_seen ≡ o.last_seen)
      × ((reap_where w picks ts o).violations ≡ o.violations)
unfolding reap_where
reap_where-last_seen w picks [] o = (refl, refl)
reap_where-last_seen w picks (t ∷ ts) o = ground (
  arith,
  reassign_and_publish-last_seen w t o,
  reap_where-last_seen w picks ts (reassign_and_publish w t o),
  reap_where-last_seen w picks ts o,
)

bury-last_seen :
    (as' : List String) (o : OrchestratorDds) → (bury as' o).last_seen ≡ forget as' o.last_seen
unfolding bury forget
bury-last_seen [] o = refl
bury-last_seen (a ∷ rest) o = bury-last_seen rest _

lookup-forget :
    (as' : List String) (k : String) (m : Dict ℕ)
    → lookup k (forget as' m) ≡ (if mem k as' then none else lookup k m)
unfolding forget mem
lookup-forget [] k m = refl
lookup-forget (a ∷ rest) k m =
    ground (arith, lookup-forget rest k (remove a m), lookup-remove a k m)

sweep-last_seen :
    (w : World) (dead : Dict ℕ) (ts : List Task) (o : OrchestratorDds)
    → (sweep w dead ts o).last_seen ≡ forget (keys dead) o.last_seen
unfolding sweep forget
sweep-last_seen w [] ts o = refl
sweep-last_seen w (d ∷ ds) ts o =
    (reap_where-last_seen w (owned_by_dead (d ∷ ds)) ts (bury (keys (d ∷ ds)) o)).0
    ∙ bury-last_seen (keys (d ∷ ds)) o

lookup-dead_agents :
    (w : World) (stale_after : ℕ) (k : String) (m : Dict ℕ)
    → Distinct m
    → lookup k (dead_agents w stale_after m) ≡ (elim (lookup k m) [
      | none ↦ none
      | some seen ↦ keep_if (ltb stale_after (w.instant - seen)) seen
    ])
unfolding dead_agents is_dead
lookup-dead_agents w stale_after k m d = lookup-retain _ k m d

-- After a sweep the heartbeat table holds the agents whose heartbeat is recent, and only them.
pub reap_dead_agents-last_seen :
    (w : World) (stale_after : ℕ) (ts : List Task) (o : OrchestratorDds) (k : String)
    → Distinct o.last_seen
    → lookup k (reap_dead_agents w stale_after ts o).last_seen ≡ (elim (lookup k o.last_seen) [
      | none ↦ none
      | some seen ↦ if ltb stale_after (w.instant - seen) then none else some seen
    ])
unfolding reap_dead_agents
reap_dead_agents-last_seen w stale_after ts o k d =
    rw (sweep-last_seen w (dead_agents w stale_after o.last_seen) ts o) (
      ground (
        arith,
        lookup-forget (keys (dead_agents w stale_after o.last_seen)) k o.last_seen,
        mem-keys k (dead_agents w stale_after o.last_seen),
        lookup-dead_agents w stale_after k o.last_seen d,
      ))

forget-Distinct : (as' : List String) (m : Dict ℕ) → Distinct m → Distinct (forget as' m)
unfolding forget
forget-Distinct [] m d = d
forget-Distinct (a ∷ rest) m d = forget-Distinct rest (remove a m) (remove-Distinct a m d)

reap_dead_agents-Distinct :
    (w : World) (stale_after : ℕ) (ts : List Task) (o : OrchestratorDds)
    → Distinct o.last_seen
    → Distinct (reap_dead_agents w stale_after ts o).last_seen
unfolding reap_dead_agents
reap_dead_agents-Distinct w stale_after ts o d =
    subst Distinct (sym (sweep-last_seen w (dead_agents w stale_after o.last_seen) ts o))
      (forget-Distinct _ o.last_seen d)

nobody_dead :
    (w : World) (stale_after : ℕ) (ts : List Task) (o : OrchestratorDds)
    → dead_agents w stale_after o.last_seen ≡ []
    → reap_dead_agents w stale_after ts o ≡ o
unfolding reap_dead_agents sweep
nobody_dead w stale_after ts o e = rw (e, sweep)

none_dead :
    (w : World) (stale_after : ℕ) (ts : List Task) (o : OrchestratorDds)
    → Distinct o.last_seen
    → dead_agents w stale_after (reap_dead_agents w stale_after ts o).last_seen ≡ []
none_dead w stale_after ts o d = eq_empty _ λ k. ground (
  arith,
  lookup-dead_agents w stale_after k (reap_dead_agents w stale_after ts o).last_seen
      (reap_dead_agents-Distinct w stale_after ts o d),
  reap_dead_agents-last_seen w stale_after ts o k d,
)

-- An agent that fell silent is reported in one sweep only: a second sweep at the same instant
-- changes nothing at all, whatever tasks it sees.
pub reap_dead_agents_once :
    (w : World) (stale_after : ℕ) (ts ts' : List Task) (o : OrchestratorDds)
    → Distinct o.last_seen
    → reap_dead_agents w stale_after ts' (reap_dead_agents w stale_after ts o)
      ≡ reap_dead_agents w stale_after ts o
reap_dead_agents_once w stale_after ts ts' o d =
    nobody_dead w stale_after ts' _ (none_dead w stale_after ts o d)
