-- ===== src/Workflow/Engine/Moves.antt =====
-- Predicates over the moves of a node and the calls of the journal:
-- crates/workflow-engine/src/engine.rs.
use dds_llm_orchestrator.Base.{
  ℕ, ◌+◌, max, eq_iff, arith, String, Bool, true, false, ◌&&◌, All, Option, none, some, Result, ok,
  err, List, [], ◌∷◌, ltb, ◌==◌, ◌>>◌, pure, Method, ◌≡◌, refl, sym, subst, Option-cases, ==→≡, inl,
  inr,
}
use dds_llm_orchestrator.Base.Dict.{lookup, lookup-insert, insert-same}
use dds_llm_orchestrator.Base.Keeps.{Keeps, Keeps-then, branch, establish}
use dds_llm_orchestrator.Workflow.Graph.{NodeSpec, PlanGraph, node}
use dds_llm_orchestrator.Workflow.Journal.{reserve}
use dds_llm_orchestrator.Workflow.Journal.Rows.{
  Journal, JournalError, ReserveOutcome, reserved, replayed, already_consumed,
}
use dds_llm_orchestrator.Workflow.Journal.Attempts.{record_attempt}
use dds_llm_orchestrator.Workflow.Journal.Outbox.{outbox_append}
use dds_llm_orchestrator.Workflow.Engine.{
  NodeProgress, no_progress, World, on_journal, reply_of, set_progress, attempt_reserve,
  attempt_key, task_id_of, answer_ready, task_payload, write_attempt, note, release_attempt,
  done_payload, retry_payload, issue, publish_attempt, materialize_node, materialize, conclude,
  on_done, close_attempt, retry_or_give_up, on_failed, has_outputs,
}
use dds_llm_orchestrator.Workflow.Engine.Events.{
  Event, Pays, publish, finish, lose, event, run_events, Move, Write,
}

module _ (digest : String → String) (foreign_keys : Bool) (g : PlanGraph) (Paid : ℕ → Type 0)
    (Q : World → Type 0)
    (opened : (id : String) (spec : NodeSpec) (w : World)
      → node id g ≡ some spec
      → lookup id w.nodes ≡ none
      → Q w
      → Q (set_progress id no_progress w))
    (moved : (id : String) (spec : NodeSpec) (p p' : NodeProgress) (w : World)
      → node id g ≡ some spec
      → lookup id w.nodes ≡ some p
      → Move spec p p'
      → Q w
      → Q (set_progress id p' w))
    (stored : (w : World) (j : Journal)
      → Write foreign_keys Paid w.store j
      → Q w
      → Q (record w { store = j })) where
  -- The predicate holds, and the node has this progress.
  At : String → NodeProgress → World → Type 0
  At id p w = Q w × (lookup id w.nodes ≡ some p)

  stored-At :
      (id : String) (p : NodeProgress) (w : World) (j : Journal)
      → Write foreign_keys Paid w.store j
      → At id p w
      → At id p (record w { store = j })
  unfolding At
  stored-At id p w j m (q, at) = (stored w j m q, at)

  reply-At :
      {A : Type 0} (id : String) (p : NodeProgress) (x : Journal × Result JournalError A)
      (w : World)
      → At id p (record w { store = x.0 })
      → At id p (reply_of w x).0
  reply-At id p (j, ok a) w q = q
  reply-At id p (j, err e) w q = q

  journal-At :
      {A : Type 0} (id : String) (p : NodeProgress) (m : Method Journal JournalError A)
      → ((j : Journal) → Write foreign_keys Paid j (m j).0)
      → Keeps (At id p) (on_journal m)
  journal-At id p m h w q =
      reply-At id p (m w.store) w (stored-At id p w (m w.store).0 (h w.store) q)

  Move-At :
      (id : String) (spec : NodeSpec) (p p' : NodeProgress) (w : World)
      → node id g ≡ some spec
      → Move spec p p'
      → At id p w
      → At id p' (set_progress id p' w)
  unfolding At
  Move-At id spec p p' w n m (q, at) =
      (moved id spec p p' w n at m q, ground (arith, lookup-insert id id p' w.nodes, eq_iff id id))

  At-Q : (id : String) (p : NodeProgress) (w : World) → At id p w → Q w
  unfolding At
  At-Q id p w q = q.0

  note-At :
      (id : String) (p : NodeProgress) (kind payload : String)
      → Keeps (At id p) (note g kind payload)
  unfolding outbox_append
  note-At id p kind payload =
      journal-At id p (outbox_append g.workflow_id kind payload)
        (λ j. Write.appends g.workflow_id kind payload)

  write-At :
      (id : String) (p : NodeProgress) (attempt : ℕ) (state : String)
      → Keeps (At id p) (write_attempt digest foreign_keys g id attempt state)
  write-At id p attempt state =
      journal-At id p
        (record_attempt foreign_keys g.workflow_id id attempt (task_id_of digest g id attempt)
          state)
        (λ j. Write.records g.workflow_id id attempt (task_id_of digest g id attempt) state)

  release-At :
      (id : String) (p : NodeProgress) (attempt : ℕ)
      → Keeps (At id p) (release_attempt g id attempt)
  release-At id p attempt =
      λ w q. stored-At id p w _ (Write.releases (attempt_key g.workflow_id id attempt)) q

  issued-Q :
      (id : String) (attempt : ℕ) (p : NodeProgress) (w : World)
      → At id p w
      → Q (issue digest foreign_keys g id attempt w).0
  unfolding issue
  issued-Q id attempt p w q =
      let task_id = task_id_of digest g id attempt in
      let row = write_attempt digest foreign_keys g id attempt "published" in
      let sent = note g "publish_task" (task_payload task_id id attempt) in
      At-Q id p _ (
        Keeps-then (At id p) (row >> sent) (pure task_id)
          (Keeps-then (At id p) row sent (write-At id p attempt "published") (note-At id p _ _))
          (λ w q. q) w q)

  publish_attempt-Q :
      (id : String) (spec : NodeSpec) (attempt : ℕ) (p : NodeProgress) (o : ReserveOutcome)
      (w : World)
      → node id g ≡ some spec
      → p.done ≡ false
      → At id p w
      → Q (publish_attempt digest foreign_keys g id attempt p o w).0
  unfolding publish_attempt
  publish_attempt-Q id spec attempt p already_consumed w n d q =
      At-Q id _ _ (Move-At id spec p (record p { in_doubt = true }) w n (Move.doubts p d) q)
  publish_attempt-Q id spec attempt p (reserved t m) w n d q = issued-Q id attempt p w q
  publish_attempt-Q id spec attempt p (replayed t) w n d q = issued-Q id attempt p w q

  materialize_node-Q :
      (id : String) (spec : NodeSpec) (microunits : ℕ) (p : NodeProgress) (w : World)
      → node id g ≡ some spec
      → Paid microunits
      → At id p w
      → Q (materialize_node digest foreign_keys g spec id microunits p w).0
  unfolding materialize_node
  materialize_node-Q id spec microunits p w n paid q =
      let attempt = max p.active_attempt 1 in
      let p' : NodeProgress = record p { active_attempt = attempt } in
      branch Q p.done _ _ w (λ h. At-Q id p w q)
        λ fresh.
          branch Q p.in_doubt _ _ w (λ h. At-Q id p w q)
            λ h.
              establish (At id p') Q (At-Q id p')
                (on_journal (reserve (attempt_reserve g spec id attempt microunits)))
                (publish_attempt digest foreign_keys g id attempt p') (set_progress id p' w)
                (journal-At id p' (reserve (attempt_reserve g spec id attempt microunits))
                  (λ j. Write.reserves (attempt_reserve g spec id attempt microunits) paid))
                (Move-At id spec p p' w n (Move.starts p fresh) q)
                (λ o v r. publish_attempt-Q id spec attempt p' o v n fresh r)

  materialize_entry-Q :
      (id : String) (spec : NodeSpec) (microunits : ℕ) (w : World) (o : Option NodeProgress)
      → node id g ≡ some spec
      → Paid microunits
      → Q w
      → lookup id w.nodes ≡ o
      → Q
          (materialize_node digest foreign_keys g spec id microunits
            (elim o [ none ↦ no_progress | some p ↦ p ])
            (set_progress id (elim o [ none ↦ no_progress | some p ↦ p ]) w)).0
  unfolding At
  materialize_entry-Q id spec microunits w none n paid q e =
      materialize_node-Q id spec microunits no_progress (set_progress id no_progress w) n paid (
        opened id spec w n e q,
        ground (arith, lookup-insert id id no_progress w.nodes, eq_iff id id),
      )
  materialize_entry-Q id spec microunits w (some p) n paid q e =
      materialize_node-Q id spec microunits p (set_progress id p w) n paid (
        subst (λ m. Q (record w { nodes = m })) (sym (insert-same id p w.nodes e)) q,
        ground (arith, lookup-insert id id p w.nodes, eq_iff id id),
      )

  pub materialize-Q :
      (id : String) (microunits : ℕ)
      → Paid microunits
      → Keeps Q (materialize digest foreign_keys g id microunits)
  unfolding materialize
  materialize-Q id microunits paid w q = elim (Option-cases (node id g)) [
    | inl empty ↦ rw (materialize, empty) q
    | inr (spec, n) ↦
        rw (materialize, n)
          (materialize_entry-Q id spec microunits w (lookup id w.nodes) n paid q refl)
  ]

  conclude-Q :
      (id : String) (spec : NodeSpec) (attempt : ℕ) (p : NodeProgress)
      (outputs : List (String × String)) (w : World)
      → node id g ≡ some spec
      → p.done ≡ false
      → has_outputs outputs spec.output_names ≡ true
      → At id p w
      → Q
          (conclude digest foreign_keys g id attempt
            (record p { done = true; outputs = outputs })
            w).0
  unfolding conclude
  conclude-Q id spec attempt p outputs w n fresh complete q =
      let p' : NodeProgress = record p { done = true; outputs = outputs } in
      let row = write_attempt digest foreign_keys g id attempt "done" in
      let sent = note g "publish_state" (done_payload id) in
      let freed = release_attempt g id attempt in
      At-Q id p' _ (
        Keeps-then (At id p') (row >> sent >> freed) (answer_ready g)
          (Keeps-then (At id p') (row >> sent) freed
            (Keeps-then (At id p') row sent (write-At id p' attempt "done") (note-At id p' _ _))
            (release-At id p' attempt))
          (λ v r. r) (set_progress id p' w)
          (Move-At id spec p p' w n (Move.concludes p outputs fresh complete) q))

  on_done-Q :
      (id : String) (attempt : ℕ) (outputs : List (String × String))
      → Keeps Q (on_done digest foreign_keys g id attempt outputs)
  unfolding on_done At
  on_done-Q id attempt outputs w q = elim (Option-cases (node id g)) [
    | inl empty ↦ rw (on_done, empty) q
    | inr (spec, n) ↦ elim (Option-cases (lookup id w.nodes)) [
      | inl lost ↦ rw (on_done, n, lost) q
      | inr (p, at) ↦
          rw (on_done, n, at)
            (branch Q p.done _ _ w (λ h. q)
              λ fresh.
                branch Q (attempt == p.active_attempt) _ _ w
                  (λ h.
                    branch Q (has_outputs outputs spec.output_names) _ _ w
                      (λ complete. conclude-Q id spec attempt p outputs w n fresh complete (q, at))
                      (λ h. q))
                  (λ h. q))
    ]
  ]

  -- What `on_failed` does once the attempt is closed.
  settled-Q :
      (id : String) (spec : NodeSpec) (failover : Bool) (p : NodeProgress) (w : World)
      → node id g ≡ some spec
      → p.done ≡ false
      → At id p w
      → Q (retry_or_give_up g spec id p.active_attempt failover p w).0
  unfolding retry_or_give_up
  settled-Q id spec failover p w n fresh q =
      let next = p.active_attempt + 1 in
      let p' : NodeProgress = record p { active_attempt = next } in
      branch Q (failover && ltb p.active_attempt spec.max_attempts) _ _ w
        (λ h. At-Q id p' _ (
          Keeps-then (At id p') (note g "publish_state" (retry_payload id next)) (pure (some next))
            (note-At id p' _ _) (λ v r. r) (set_progress id p' w)
            (Move-At id spec p p' w n (Move.retries p fresh (ground (arith, h))) q)))
        (λ h.
          At-Q id _ _
            (Move-At id spec p (record p { failed = true }) w n (Move.gives_up p fresh) q))

  close_attempt-Q :
      (id : String) (spec : NodeSpec) (attempt : ℕ) (failover : Bool) (p : NodeProgress) (w : World)
      → node id g ≡ some spec
      → p.done ≡ false
      → attempt ≡ p.active_attempt
      → At id p w
      → Q (close_attempt digest foreign_keys g spec id attempt failover p w).0
  unfolding close_attempt
  close_attempt-Q id spec attempt failover p w n fresh same q =
      let freed = release_attempt g id attempt in
      let row = write_attempt digest foreign_keys g id attempt "failed" in
      establish (At id p) Q (At-Q id p) (freed >> row)
        (λ _. retry_or_give_up g spec id attempt failover p) w
        (Keeps-then (At id p) freed row (release-At id p attempt) (write-At id p attempt "failed"))
        q
        (λ _ v r.
          subst (λ a. Q (retry_or_give_up g spec id a failover p v).0) (sym same)
            (settled-Q id spec failover p v n fresh r))

  on_failed-Q :
      (id : String) (attempt : ℕ) (failover : Bool)
      → Keeps Q (on_failed digest foreign_keys g id attempt failover)
  unfolding on_failed At
  on_failed-Q id attempt failover w q = elim (Option-cases (node id g)) [
    | inl empty ↦ rw (on_failed, empty) q
    | inr (spec, n) ↦ elim (Option-cases (lookup id w.nodes)) [
      | inl lost ↦ rw (on_failed, n, lost) q
      | inr (p, at) ↦
          rw (on_failed, n, at)
            (branch Q p.done _ _ w (λ h. q)
              λ fresh.
                branch Q (attempt == p.active_attempt) _ _ w
                  (λ h.
                    close_attempt-Q id spec attempt failover p w n fresh
                      (==→≡ attempt p.active_attempt h) (q, at))
                  (λ h. q))
    ]
  ]

  -- What the moves of the nodes keep, every sequence of events keeps.
  pub run_events-Holds :
      (es : List Event) (w : World)
      → All (Pays Paid) es
      → Q w
      → Q (run_events digest foreign_keys g es w)
  unfolding run_events event
  run_events-Holds [] w pay q = q
  run_events-Holds (publish id m ∷ es) w pay q =
      run_events-Holds es _ pay.1 (materialize-Q id m pay.0 w q)
  run_events-Holds (finish id n outputs ∷ es) w pay q =
      run_events-Holds es _ pay.1 (on_done-Q id n outputs w q)
  run_events-Holds (lose id n failover ∷ es) w pay q =
      run_events-Holds es _ pay.1 (on_failed-Q id n failover w q)
