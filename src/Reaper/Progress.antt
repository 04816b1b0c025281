-- ===== src/Reaper/Progress.antt =====
-- `reap_stalled_tasks` and `republishe_reatribuicoes_pendentes` of
-- crates/orchestrator/src/dds.rs.
use mathlib.Core.List.{reverse, reverse-cons, append_assoc}
use dds_llm_orchestrator.Base.{
  ℕ, ◌≡◌, inl, inr, refl, sym, ap, ◌∙◌, String, Bool, true, arith, leb, pos, if◌then◌else◌, List,
  [], ◌∷◌, ◌++◌, map, select, none, some, Bool-cases,
}
use dds_llm_orchestrator.Base.Dict.{
  Dict, lookup, remove, retain, keys, keep_if, mem, mem-keys, Distinct, lookup-remove,
  lookup-retain,
}
use dds_llm_orchestrator.Task.{Task, requeued}
use dds_llm_orchestrator.Task.Reassign.{abandoned, IsActive, reassign_active}
use dds_llm_orchestrator.Reaper.{
  World, OrchestratorDds, max_task_retries, settle, reassign_and_publish, reap_where, is_stalled,
  reap_stalled_tasks, is_settled, republish_all, remove_all, republish_pending,
}

-- What becomes of a task that is taken back.
pub reissue : ℕ → Task → Task
reissue now t =
    if leb max_task_retries t.retry_count
    then abandoned now t
    else requeued now (record t { status = pos 0 })

is_stalled-IsActive : (now : ℕ) (t : Task) → is_stalled now t ≡ true → IsActive t
unfolding is_stalled
is_stalled-IsActive now t h = ground arith

reassign_and_publish-published :
    (w : World) (t : Task) (o : OrchestratorDds)
    → IsActive t
    → (reassign_and_publish w t o).published ≡ reissue w.now_ns t ∷ o.published
unfolding reassign_and_publish settle reissue
reassign_and_publish-published w t o h =
    rw (reassign_active t max_task_retries w.now_ns h) (ground arith)

reverse-cons_append {ℓ} :
    {A : Type ℓ} (x : A) (xs ys : List A) → reverse (x ∷ xs) ++ ys ≡ reverse xs ++ (x ∷ ys)
reverse-cons_append x xs ys = rw reverse-cons (append_assoc (reverse xs) (x ∷ []) ys)

reap_where-published :
    (w : World) (picks : Task → Bool) (ts : List Task) (o : OrchestratorDds)
    → ((t : Task) → picks t ≡ true → IsActive t)
    → (reap_where w picks ts o).published
      ≡ reverse (map (reissue w.now_ns) (select picks ts)) ++ o.published
unfolding reap_where
reap_where-published w picks [] o h = refl
reap_where-published w picks (t ∷ ts) o h = elim (Bool-cases (picks t)) [
  | inl e ↦
      rw (e, reap_where)
        (reap_where-published w picks ts (reassign_and_publish w t o) h
          ∙ ap (◌++◌ (reverse (map (reissue w.now_ns) (select picks ts))))
              (reassign_and_publish-published w t o (h t e))
          ∙ sym (
              reverse-cons_append (reissue w.now_ns t) (map (reissue w.now_ns) (select picks ts))
                o.published))
  | inr e ↦ rw (e, reap_where) (reap_where-published w picks ts o h)
]

-- A sweep publishes a reissue of each task of the cache that stood in ASSIGNED for over 30 s or in
-- RUNNING for over 60 s, each at the end that its retries leave it, and of no other task.
pub reap_stalled_tasks-published :
    (w : World) (ts : List Task) (o : OrchestratorDds)
    → (reap_stalled_tasks w ts o).published
      ≡ reverse (map (reissue w.now_ns) (select (is_stalled w.now_ns) ts)) ++ o.published
unfolding reap_stalled_tasks
reap_stalled_tasks-published w ts o =
    reap_where-published w (is_stalled w.now_ns) ts o (is_stalled-IsActive w.now_ns)

republish_all-pending :
    (w : World) (m : Dict (Task × ℕ)) (o : OrchestratorDds)
    → (republish_all w m o).pending_reassignment ≡ o.pending_reassignment
unfolding republish_all
republish_all-pending w [] o = refl
republish_all-pending w ((k, (t, since)) ∷ m) o = republish_all-pending w m _ ∙ ground arith

lookup-remove_all :
    (ks : List String) (k : String) (m : Dict (Task × ℕ))
    → lookup k (remove_all ks m) ≡ (if mem k ks then none else lookup k m)
unfolding remove_all mem
lookup-remove_all [] k m = refl
lookup-remove_all (j ∷ js) k m =
    ground (arith, lookup-remove_all js k (remove j m), lookup-remove j k m)

lookup-settled :
    (w : World) (k : String) (m : Dict (Task × ℕ))
    → Distinct m
    → lookup k (retain (is_settled w) m)
      ≡ (elim (lookup k m) [ none ↦ none | some e ↦ keep_if (is_settled w k e) e ])
lookup-settled w k m d = lookup-retain (is_settled w) k m d

-- A reassignment leaves the republisher's table exactly when the mesh shows it or its 60 s have
-- run out; every other one stays as it is.
pub republish_pending-lookup :
    (w : World) (o : OrchestratorDds) (k : String)
    → Distinct o.pending_reassignment
    → lookup k (republish_pending w o).pending_reassignment
      ≡ (elim (lookup k o.pending_reassignment) [
        | none ↦ none
        | some e ↦ if is_settled w k e then none else some e
      ])
unfolding republish_pending
republish_pending-lookup w o k d = ground (
  arith,
  republish_all-pending w o.pending_reassignment o,
  lookup-remove_all (keys (retain (is_settled w) o.pending_reassignment)) k o.pending_reassignment,
  mem-keys k (retain (is_settled w) o.pending_reassignment),
  lookup-settled w k o.pending_reassignment d,
)
