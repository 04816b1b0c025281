-- ===== src/Workflow/Journal/Replays.antt =====
-- The idempotency keys of `reserve` in crates/workflow-engine/src/journal.rs.
use dds_llm_orchestrator.Base.{
  ℕ, ◌≤◌, ltb_ℤ, as_i64, as_u64-as_i64, u64_max, String, false, ◌≡◌, ◌≢◌, sym, ap, ◌∙◌, subst,
  Option, some, Option-cases, Bool-cases, inl, inr, ok, List, [], ◌∷◌, ◌>>◌, pure, str_eq, eq_iff,
  arith,
}
use dds_llm_orchestrator.Base.Dict.{lookup, lookup-insert, contains_key}
use dds_llm_orchestrator.Workflow.Journal.{
  reserve, hold, update_workflow, set_reservation, release_reservation, settle, replay_of,
  admit_workflow, admit_rows, insert_decision, insert_workflow, insert_intent, within_budget,
  workflow_row, reservation_row, add_reserved,
}
use dds_llm_orchestrator.Workflow.Journal.Rows.{
  Journal, Reserve, Admission, ReservationRow, WorkflowRow, held, reserved, replayed,
  already_consumed, admitted,
}
use dds_llm_orchestrator.Workflow.Journal.Outcomes.{
  left_of, reserved_journal, spent_row, settled_row, reserve-known, reserve-ok, reserve-short,
  reserve-unknown, release-spent,
}
use dds_llm_orchestrator.Base.Keeps.{Keeps, Keeps-then, keeps_lookup, keeps_test}
use dds_llm_orchestrator.Workflow.Journal.Keeps.{Keeps-transaction, keeps_state}
use dds_llm_orchestrator.Workflow.Journal.Calls.{Call, admit, take, release, call, run}

replay_reserved :
    (q r : Reserve) (w : WorkflowRow) (j : Journal)
    → q.tokens ≤ u64_max
    → r.idempotency_key ≡ q.idempotency_key
    → reserve r (reserved_journal q w j) ≡ (reserved_journal q w j, ok (replayed q.tokens))
replay_reserved q r w j h same =
    reserve-known (reserved_journal q w j) r (reservation_row q) (
      ground (
        arith,
        same,
        eq_iff q.idempotency_key q.idempotency_key,
        lookup-insert q.idempotency_key q.idempotency_key (reservation_row q) j.reservations,
      ))
    ∙ ap (λ n. (reserved_journal q w j, ok (replayed n))) (as_u64-as_i64 q.tokens h)

-- A second reservation under the key of one that was just made reserves nothing more: it leaves the
-- journal as it is, whatever it asks for, and returns the tokens of the first.
pub reserve-replay :
    (q r : Reserve) (j j' : Journal) (t m : ℕ)
    → q.tokens ≤ u64_max
    → r.idempotency_key ≡ q.idempotency_key
    → reserve q j ≡ (j', ok (reserved t m))
    → reserve r j' ≡ (j', ok (replayed q.tokens))
reserve-replay q r j j' t m h same e =
    elim (Option-cases (lookup q.idempotency_key j.reservations)) [
      | inr (v, found) ↦ ground (arith, e, reserve-known j q v found)
      | inl free ↦ elim (Option-cases (lookup q.workflow_id j.workflows)) [
        | inl lost ↦ ground (arith, e, reserve-unknown j q free lost)
        | inr (w, at) ↦ elim (Bool-cases (ltb_ℤ (left_of w) (as_i64 q.microunits))) [
          | inl short ↦ ground (arith, e, reserve-short j q w free at short)
          | inr enough ↦
              subst (λ x. reserve r x.0 ≡ (x.0, ok (replayed q.tokens)))
                (sym (reserve-ok j q w free at enough) ∙ e) (replay_reserved q r w j h same)
        ]
      ]
    ]

-- The row under a key stays as it is.
module _ (key : String) (v : ReservationRow) where
  Row : Journal → Type 0
  Row j = lookup key j.reservations ≡ some v

  update_workflow-Row :
      (w : String) (set : WorkflowRow → WorkflowRow) → Keeps Row (update_workflow w set)
  unfolding Row update_workflow
  update_workflow-Row w set j p =
      keeps_lookup Row (lookup w j.workflows) _ _ p
        λ r. keeps_test Row (within_budget (set r)) _ _ p p

  set_reservation-Row :
      (k : String) (r : ReservationRow) → str_eq k key ≡ false → Keeps Row (set_reservation k r)
  unfolding Row set_reservation
  set_reservation-Row k r apart j p = ground (arith, lookup-insert k key r j.reservations, apart, p)

  hold-Row : (q : Reserve) → str_eq q.idempotency_key key ≡ false → Keeps Row (hold q)
  unfolding hold
  hold-Row q apart j p = keeps_lookup Row (lookup q.workflow_id j.workflows) _ _ p λ r.
      keeps_test Row (ltb_ℤ (left_of r) (as_i64 q.microunits)) _ _ p (
        Keeps-then Row
          (update_workflow q.workflow_id (add_reserved (as_i64 q.microunits))
            >> set_reservation q.idempotency_key (reservation_row q))
          (pure (reserved q.tokens q.microunits))
          (Keeps-then Row (update_workflow q.workflow_id (add_reserved (as_i64 q.microunits)))
            (set_reservation q.idempotency_key (reservation_row q)) (update_workflow-Row _ _)
            (set_reservation-Row _ _ apart))
          (λ j p. p) j p)

  settle-Row :
      (k : String) (r : ReservationRow) (m : Option ℕ)
      → str_eq k key ≡ false
      → Keeps Row (settle k r m)
  unfolding settle
  settle-Row k r m apart =
      Keeps-then Row (set_reservation k (spent_row r m))
        (update_workflow r.workflow_id (settled_row r m)) (set_reservation-Row _ _ apart)
        (update_workflow-Row _ _)

  admit_workflow-Row : (a : Admission) → Keeps Row (admit_workflow a)
  unfolding Row admit_workflow admit_rows insert_decision insert_workflow insert_intent
  admit_workflow-Row a j p =
      keeps_lookup Row (lookup a.workflow_id j.decisions) _ _
        (Keeps-transaction Row (admit_rows a)
          (Keeps-then Row (insert_decision a >> insert_workflow a >> insert_intent a)
            (pure admitted)
            (Keeps-then Row (insert_decision a >> insert_workflow a) (insert_intent a)
              (Keeps-then Row (insert_decision a) (insert_workflow a)
                (λ j p. keeps_test Row (contains_key a.workflow_id j.decisions) _ _ p p)
                (λ j p.
                  keeps_test Row (contains_key a.workflow_id j.workflows) _ _ p
                    (keeps_test Row (within_budget (workflow_row a)) _ _ p p)))
              (λ j p. keeps_test Row (contains_key a.workflow_id j.intents) _ _ p p))
            (λ j p. p))
          j p)
        (λ d. p)

  reserve-Row : (q : Reserve) → Keeps Row (reserve q)
  unfolding Row reserve
  reserve-Row q j p = elim (Bool-cases (str_eq q.idempotency_key key)) [
    | inl same ↦
        subst (λ x. Row x.0)
          (sym (reserve-known j q v (ground (arith, eq_iff q.idempotency_key key, same, p)))) p
    | inr apart ↦
        keeps_lookup Row (lookup q.idempotency_key j.reservations) _ _
          (Keeps-transaction Row (hold q) (hold-Row q apart) j p) (λ r. p)
  ]

  release_reservation-Row :
      (k : String) (m : Option ℕ) → v.state ≢ held → Keeps Row (release_reservation k m)
  unfolding Row release_reservation
  release_reservation-Row k m gone j p = elim (Bool-cases (str_eq k key)) [
    | inl same ↦
        subst (λ x. Row x.0)
          (sym (release-spent j k m v (ground (arith, eq_iff k key, same, p)) gone)) p
    | inr apart ↦ keeps_lookup Row (lookup k j.reservations) _ _ p λ r.
        keeps_state Row r.state _ _
          (Keeps-transaction Row (settle k r m) (settle-Row k r m apart) j p) p
  ]

  run-Row : (cs : List Call) (j : Journal) → v.state ≢ held → Row j → Row (run cs j).0
  unfolding call run
  run-Row [] j gone p = p
  run-Row (admit a ∷ cs) j gone p = run-Row cs _ gone (admit_workflow-Row a j p)
  run-Row (take q ∷ cs) j gone p = run-Row cs _ gone (reserve-Row q j p)
  run-Row (release k m ∷ cs) j gone p = run-Row cs _ gone (release_reservation-Row k m gone j p)

spent_outcome : (v : ReservationRow) → v.state ≢ held → replay_of v ≡ already_consumed
spent_outcome v gone = ground (arith, gone)

-- Once the reservation under a key is charged, no later call frees the key: after any sequence of
-- calls a reservation under it changes nothing and is told that the work was paid for.
pub run-already_consumed :
    (cs : List Call) (j : Journal) (key : String) (v : ReservationRow) (q : Reserve)
    → lookup key j.reservations ≡ some v
    → v.state ≢ held
    → q.idempotency_key ≡ key
    → reserve q (run cs j).0 ≡ ((run cs j).0, ok already_consumed)
unfolding Row
run-already_consumed cs j key v q e gone same =
    reserve-known (run cs j).0 q v (
      subst (λ k. lookup k (run cs j).0.reservations ≡ some v) (sym same)
        (run-Row key v cs j gone e))
    ∙ ap (λ o. ((run cs j).0, ok o)) (spent_outcome v gone)
