-- ===== src/Workflow/Journal/Intents.antt =====
-- `stored_intents` after `admit_workflow`: crates/workflow-engine/src/journal.rs. The SELECT has
-- no ORDER BY; its rows come in the order of insertion here, that of the row ids which SQLite
-- scans.
use dds_llm_orchestrator.Base.{
  ℕ, ◌≤◌, ◌<◌, as_i64, as_u64-as_i64, u32, u32_mod, u64_max, pos, String, ◌≡◌, refl, ap, ◌∙◌, true,
  none, [], ◌∷◌, ◌++◌, leb_ℤ, arith,
}
use dds_llm_orchestrator.Base.Dict.{Dict, lookup, insert, contains_key}
use dds_llm_orchestrator.Workflow.Journal.{
  admit_workflow, stored_intents, stored_from, stored_intent, intent_row, within_budget,
  workflow_row,
}
use dds_llm_orchestrator.Workflow.Journal.Rows.{Journal, Admission, IntentRow, StoredIntent}
use dds_llm_orchestrator.Workflow.Journal.Ledger.Relation.{add_zero}
use dds_llm_orchestrator.Workflow.Journal.Outcomes.{admit-ok}

-- The intent of an admission.
abbrev pub intent_of : Admission → StoredIntent
intent_of a = record {
  workflow_id = a.workflow_id;
  request_id = a.request_id;
  prompt = a.prompt;
  created_at_ns = a.created_at_ns;
  deadline_ns = a.deadline_ns;
  max_tokens = a.max_tokens;
  max_cost_microunits = a.budget_microunits;
  intent_revision = a.intent_revision;
  questions_revision = a.questions_revision;
  policy_revision = a.policy_revision;
  capability_catalog_revision = a.capability_catalog_revision;
  checkpoint_revision = a.checkpoint_revision;
}

-- The numbers of an admission fit in their Rust types.
pub record IsSized (a : Admission) : Type 0 where
  pub created : a.created_at_ns ≤ u64_max
  pub deadline : a.deadline_ns ≤ u64_max
  pub tokens : a.max_tokens ≤ u64_max
  pub budget : a.budget_microunits ≤ u64_max
  pub intent : a.intent_revision < u32_mod
  pub questions : a.questions_revision < u32_mod
  pub policy : a.policy_revision < u32_mod
  pub catalog : a.capability_catalog_revision < u32_mod

u32-small : (n : ℕ) → n < u32_mod → u32 n ≡ n
u32-small n h = omega (arith, h)

stored_intent-of :
    (a : Admission) → IsSized a → stored_intent a.workflow_id (intent_row a) ≡ intent_of a
stored_intent-of a s =
    rw
      (
        as_u64-as_i64 a.created_at_ns s.created,
        as_u64-as_i64 a.deadline_ns s.deadline,
        as_u64-as_i64 a.max_tokens s.tokens,
        as_u64-as_i64 a.budget_microunits s.budget,
        u32-small a.intent_revision s.intent,
        u32-small a.questions_revision s.questions,
        u32-small a.policy_revision s.policy,
        u32-small a.capability_catalog_revision s.catalog,
      )
      refl

stored_from-insert :
    (k : String) (r : IntentRow) (m : Dict IntentRow)
    → lookup k m ≡ none
    → stored_from (insert k r m) ≡ stored_from m ++ stored_intent k r ∷ []
unfolding stored_from insert lookup
stored_from-insert k r [] e = refl
stored_from-insert k r ((i, x) ∷ m) e = ground (arith, stored_from-insert k r m)

row-within :
    (a : Admission)
    → a.budget_microunits < 9223372036854775808
    → within_budget (workflow_row a) ≡ true
unfolding within_budget
row-within a h =
    ap (λ z. leb_ℤ z (as_i64 a.budget_microunits)) (add_zero (pos 0)) ∙ ground (arith, h)

-- An intent that the journal admits for the first time, with a budget below 2^63, stands last among the stored intents, with
-- every field as it was given: its casts to SQLite's signed integers and back lose nothing.
pub stored_intents-admit_workflow :
    (a : Admission) (j : Journal)
    → IsSized a
    → lookup a.workflow_id j.decisions ≡ none
    → lookup a.workflow_id j.workflows ≡ none
    → lookup a.workflow_id j.intents ≡ none
    → a.budget_microunits < 9223372036854775808
    → stored_intents (admit_workflow a j).0 ≡ stored_intents j ++ intent_of a ∷ []
unfolding stored_intents contains_key
stored_intents-admit_workflow a j s d w i fit =
    ap (λ x. stored_from x.0.intents) (admit-ok j a d w (row-within a fit))
    ∙ rw (contains_key, i) (stored_from-insert a.workflow_id (intent_row a) j.intents i)
    ∙ ap (λ x. stored_from j.intents ++ x ∷ []) (stored_intent-of a s)
