-- ===== src/Workflow/QosMapper/Budget.antt =====
-- The objectives and the budget: `map_objective` and `map_fallback` of
-- crates/workflow-engine/src/qos_mapper.rs.
use dds_llm_orchestrator.Base.{
  ℕ, ◌<◌, ◌⊎◌, ◌*◌, ◌+◌, u64_max, All, List, [], ◌∷◌, Option-cases, zero, suc, ℤ, negsuc, ◌≤◌,
  String, true, false, ◌≡◌, refl, sym, ap, ◌∙◌, inl, inr, Option, none, some, ◌==◌, if◌then◌else◌,
  str_eq, Bool-cases, arith, subst,
}
use dds_llm_orchestrator.Base.Dict.{Dict, lookup, mem}
use Prim.Native.Nat.{◌/◌}
use native.Mathlib.Nat.{mod-eq_of_lt}
use dds_llm_orchestrator.Workflow.QosMapper.{
  PriceTable, QosMapperPolicy, EffectiveQos, QosReject, QosMapping, applied, rejected,
  WorkflowIntent, FallbackTemplate, is_ordinal, estimate_cost, pick, low_cost, zero_budget,
  effective, map_objective, find_template, map_fallback, fall_back, unrequested, min,
  no_fallback_available, qi_low_cost,
}
use dds_llm_orchestrator.Workflow.QosMapper.Choice.{AtLeast, Chosen, pick-Chosen}

-- What an applied mapping says, in terms of the estimates, which keep 64 bits.
pub record IsMapped (objective : ℤ) (priority : ℕ) (intent : WorkflowIntent)
    (policy : QosMapperPolicy) (e : EffectiveQos) : Type 0 where
  pub requested : e.requested_objective ≡ objective
  pub accepted : e.accepted_objective ≡ objective
  pub admitted : e.admission_priority ≡ (if is_ordinal 1 objective then 10 else priority)
  pub tokens : e.max_tokens ≡ intent.max_tokens
  -- LOW_COST: the model of least estimate, which is within the budget.
  pub frugal :
      objective ≡ qi_low_cost
      → (m : String) × (c : ℕ) × (e.model_constraint ≡ some m)
        × Chosen
            (some (c, m))
            intent.max_tokens
            intent.max_cost_microunits
            policy.prices
            policy.low_cost_models
  -- Without a budget every other objective has an estimate of nothing.
  pub unpaid :
      is_ordinal 3 objective ≡ false
      → intent.max_cost_microunits ≡ 0
      → estimate_cost policy.default_model intent.max_tokens policy.prices ≡ some 0

applied-inj : (a b : EffectiveQos) → applied a ≡ applied b → a ≡ b
applied-inj a b h = ap (λ m. elim m [ applied e ↦ e | rejected r ↦ a ]) h

unapplied : (r : QosReject) (e : EffectiveQos) → ¬ (rejected r ≡ applied e)
unapplied r e h = ground (arith, h)

low_cost_applied :
    (best : Option (ℕ × String)) (priority : ℕ) (intent : WorkflowIntent) (policy : QosMapperPolicy)
    (e : EffectiveQos)
    → low_cost best priority intent policy ≡ applied e
    → Chosen best intent.max_tokens intent.max_cost_microunits policy.prices policy.low_cost_models
    → IsMapped qi_low_cost priority intent policy e
unfolding low_cost
low_cost_applied none priority intent policy e h chosen = absurd (unapplied _ e h)
low_cost_applied (some (c, m)) priority intent policy e h chosen =
    subst (IsMapped qi_low_cost priority intent policy) (applied-inj _ e h) record {
      requested = refl;
      accepted = refl;
      admitted = refl;
      tokens = refl;
      frugal = λ low. (m, c, refl, chosen);
      unpaid = λ other. ground (arith, other);
    }

plain-IsMapped :
    (objective : ℤ) (priority : ℕ) (intent : WorkflowIntent) (policy : QosMapperPolicy)
    (e : EffectiveQos)
    → is_ordinal 3 objective ≡ false
    → (intent.max_cost_microunits ≡ 0
        → estimate_cost policy.default_model intent.max_tokens policy.prices ≡ some 0)
    → applied (effective objective priority none intent.max_tokens) ≡ applied e
    → IsMapped objective priority intent policy e
plain-IsMapped objective priority intent policy e other paid h =
    subst (IsMapped objective priority intent policy) (applied-inj _ e h) record {
      requested = refl;
      accepted = refl;
      admitted = refl;
      tokens = refl;
      frugal = λ low. ground (arith, other, low);
      unpaid = λ _ none_left. paid none_left;
    }

zero_budget-applied :
    (o : Option ℕ) (policy : QosMapperPolicy) (a e : EffectiveQos)
    → zero_budget o policy (applied a) ≡ applied e
    → (o ≡ some 0) × (applied a ≡ applied e)
zero_budget-applied none policy a e h = ground (arith, h)
zero_budget-applied (some zero) policy a e h = (refl, h)
zero_budget-applied (some (suc c)) policy a e h = ground (arith, h)

low_cost_ordinal : (z : ℤ) → is_ordinal 3 z ≡ true → qi_low_cost ≡ z
low_cost_ordinal z h = ground (arith, h)

-- An objective that is applied is the one that was asked for, at the tokens of the intent, with the
-- estimates as above.
pub map_objective-IsMapped :
    (objective : ℤ) (priority : ℕ) (intent : WorkflowIntent) (policy : QosMapperPolicy)
    (e : EffectiveQos)
    → map_objective objective priority intent policy ≡ applied e
    → IsMapped objective priority intent policy e
unfolding map_objective
map_objective-IsMapped objective priority intent policy e h =
    elim (Bool-cases (is_ordinal 3 objective)) [
      | inl low ↦
          subst (λ z. IsMapped z priority intent policy e) (low_cost_ordinal objective low)
            (low_cost_applied
              (pick intent.max_tokens intent.max_cost_microunits policy.prices
                policy.low_cost_models)
              priority intent policy e (ground (arith, h, low))
              (pick-Chosen intent.max_tokens intent.max_cost_microunits policy.prices
                policy.low_cost_models))
      | inr other ↦ elim (Bool-cases (intent.max_cost_microunits == 0)) [
        | inl broke ↦
            let (free, same) =
              zero_budget-applied
                (estimate_cost policy.default_model intent.max_tokens policy.prices) policy
                (effective objective priority none intent.max_tokens) e
                (ground (arith, h, other, broke)) in
            plain-IsMapped objective priority intent policy e other (λ _. free) same
        | inr rich ↦
            plain-IsMapped objective priority intent policy e other
              (λ broke. ground (arith, broke, rich)) (ground (arith, h, other, rich))
      ]
    ]

-- The tokens at every price of the table fit in 64 bits.
abbrev pub Fits : ℕ → Dict ℕ → Type 0
Fits k [] = Unit
Fits k ((m, p) ∷ ps) = (k * p ≤ u64_max) × Fits k ps

Fits-lookup :
    (k : ℕ) (m : String) (p : ℕ) (ps : Dict ℕ) → Fits k ps → lookup m ps ≡ some p → k * p ≤ u64_max
unfolding lookup
Fits-lookup k m p [] f e = ground (arith, e)
Fits-lookup k m p ((n, q) ∷ ps) f e = ground (arith, e, f.0, Fits-lookup k m p ps f.1)

-- The cost of tokens at a price for a thousand of them, rounded up.
abbrev pub cost : ℕ → ℕ → ℕ
cost k p = (k * p + 999) / 1000

estimate_cost-cost :
    (m : String) (k p : ℕ) (prices : PriceTable)
    → Fits k prices.per_1k_output
    → lookup m prices.per_1k_output ≡ some p
    → estimate_cost m k prices ≡ some (cost k p)
unfolding estimate_cost
estimate_cost-cost m k p prices f e =
    let small = Fits-lookup k m p prices.per_1k_output f e in
    rw (estimate_cost, e, mod-eq_of_lt {n = k * p} {m = u64_max + 1} (omega (arith, small))) refl

known_price :
    (m : String) (k c : ℕ) (prices : PriceTable)
    → estimate_cost m k prices ≡ some c
    → (p : ℕ) × (lookup m prices.per_1k_output ≡ some p)
unfolding estimate_cost
known_price m k c prices e = elim (Option-cases (lookup m prices.per_1k_output)) [
  | inl none_there ↦ ground (arith, e, none_there)
  | inr (p, found) ↦ (p, found)
]

cost-le : (k p b : ℕ) → cost k p ≤ b → k * p ≤ 1000 * b
cost-le k p b h = omega (arith, h)

-- What the estimates of LOW_COST come to: tokens at the price of the model.
pub record IsFrugal (k budget : ℕ) (prices : PriceTable) (models : List String) (m : String)
    : Type 0 where
  pub offered : mem m models ≡ true
  pub price : ℕ
  pub known : lookup m prices.per_1k_output ≡ some price
  pub within : k * price ≤ 1000 * budget
  pub least :
      All (λ n. (q : ℕ) → lookup n prices.per_1k_output ≡ some q → cost k price ≤ cost k q) models

AtLeast-cost :
    (c k : ℕ) (prices : PriceTable) (ms : List String)
    → Fits k prices.per_1k_output
    → AtLeast c k prices ms
    → All (λ n. (q : ℕ) → lookup n prices.per_1k_output ≡ some q → c ≤ cost k q) ms
AtLeast-cost c k prices [] f a = tt
AtLeast-cost c k prices (n ∷ ns) f (a, rest) = (
  λ q known. a (cost k q) (estimate_cost-cost n k q prices f known),
  AtLeast-cost c k prices ns f rest,
)

nothing : (n : ℕ) → n ≤ 1000 * 0 → n ≡ 0
nothing n h = omega (arith, h)

some-inj : (a b : ℕ) → some a ≡ some b → a ≡ b
some-inj a b h = ground (arith, h)

Chosen-IsFrugal :
    (m : String) (c k budget : ℕ) (prices : PriceTable) (ms : List String)
    → Fits k prices.per_1k_output
    → Chosen (some (c, m)) k budget prices ms
    → IsFrugal k budget prices ms m
unfolding Chosen
Chosen-IsFrugal m c k budget prices ms f (offered, e, w, a) =
    let (p, known) = known_price m k c prices e in
    let same = some-inj c (cost k p) (sym e ∙ estimate_cost-cost m k p prices f known) in
    record {
      offered = offered;
      price = p;
      known = known;
      within = cost-le k p budget (subst (λ x. x ≤ budget) same w);
      least = AtLeast-cost (cost k p) k prices ms f (subst (λ x. AtLeast x k prices ms) same a);
    }

-- A model of known price at which the tokens cost nothing.
abbrev pub CostsNothing : ℕ → PriceTable → String → Type 0
CostsNothing k prices m = (p : ℕ) × (lookup m prices.per_1k_output ≡ some p) × (k * p ≡ 0)

estimate-CostsNothing :
    (k : ℕ) (prices : PriceTable) (m : String)
    → Fits k prices.per_1k_output
    → estimate_cost m k prices ≡ some 0
    → CostsNothing k prices m
estimate-CostsNothing k prices m fits free =
    let (p, known) = known_price m k 0 prices free in
    let same = some-inj 0 (cost k p) (sym free ∙ estimate_cost-cost m k p prices fits known) in
    (p, known, nothing _ (cost-le k p 0 (subst (λ x. x ≤ 0) same (omega arith))))

paid_or_not : (n : ℕ) → (0 < n) ⊎ (n ≡ 0)
paid_or_not zero = inr refl
paid_or_not (suc n) = inl (omega arith)

-- Where the tokens of the intent at every price of the table fit in 64 bits, an objective that is
-- applied is the one that was asked for, at the tokens of the intent. LOW_COST has one of its models,
-- with a known price at which those tokens cost no more than the budget, and no other of its models
-- with a known price costs less, to the microunit rounded up. Any other objective without a budget
-- has a default model of known price at which the tokens cost nothing.
pub map_objective-IsWithin :
    (objective : ℤ) (priority : ℕ) (intent : WorkflowIntent) (policy : QosMapperPolicy)
    (e : EffectiveQos)
    → Fits intent.max_tokens policy.prices.per_1k_output
    → map_objective objective priority intent policy ≡ applied e
    → (e.accepted_objective ≡ objective)
      × (e.max_tokens ≡ intent.max_tokens)
      × (((objective ≡ qi_low_cost)
            × (m : String) × (e.model_constraint ≡ some m)
            × IsFrugal intent.max_tokens intent.max_cost_microunits policy.prices
                policy.low_cost_models m)
          ⊎ ((is_ordinal 3 objective ≡ false)
              × ((0 < intent.max_cost_microunits)
                  ⊎ CostsNothing intent.max_tokens policy.prices policy.default_model)))
map_objective-IsWithin objective priority intent policy e fits h =
    let mapped = map_objective-IsMapped objective priority intent policy e h in
    (
      mapped.accepted,
      mapped.tokens,
      elim (Bool-cases (is_ordinal 3 objective)) [
        | inl low ↦
            let three = sym (low_cost_ordinal objective low) in
            let (m, c, constraint, chosen) = mapped.frugal three in
            inl (
              three,
              m,
              constraint,
              Chosen-IsFrugal m c intent.max_tokens _ policy.prices _ fits chosen,
            )
        | inr other ↦ inr (
          other,
          elim (paid_or_not intent.max_cost_microunits) [
            | inl some_budget ↦ inl some_budget
            | inr empty ↦ inr (
                estimate-CostsNothing intent.max_tokens policy.prices policy.default_model fits
                  (mapped.unpaid other empty))
          ],
        )
      ],
    )

unrequested-applied :
    (q : QosMapping) (e : EffectiveQos)
    → unrequested q ≡ applied e
    → (e' : EffectiveQos) × (q ≡ applied e') × (e ≡ record e' { requested_objective = negsuc 0 })
unrequested-applied (applied e') e h = (e', refl, sym (applied-inj _ e h))
unrequested-applied (rejected r) e h = absurd (unapplied r e h)

-- What an applied fallback says.
pub record IsFallback (intent : WorkflowIntent) (policy : QosMapperPolicy) (e : EffectiveQos)
    : Type 0 where
  pub template : FallbackTemplate
  pub authorized :
      find_template intent.fallback_template_id policy.fallback_templates ≡ some template
  pub requested : e.requested_objective ≡ negsuc 0
  pub within_template : e.max_tokens ≤ template.max_tokens
  pub within_intent : e.max_tokens ≤ intent.max_tokens
  pub decided : EffectiveQos
  pub same : e ≡ record decided { requested_objective = negsuc 0 }
  pub mapped :
      IsMapped template.objective 5
        (record intent { max_tokens = min template.max_tokens intent.max_tokens })
        policy
        decided

fall_back-IsFallback :
    (o : Option FallbackTemplate) (intent : WorkflowIntent) (policy : QosMapperPolicy)
    (e : EffectiveQos)
    → find_template intent.fallback_template_id policy.fallback_templates ≡ o
    → fall_back o intent policy ≡ applied e
    → IsFallback intent policy e
unfolding fall_back
fall_back-IsFallback none intent policy e found h = absurd (unapplied _ e h)
fall_back-IsFallback (some t) intent policy e found h =
    let (e', h', same) = unrequested-applied _ e h in
    let m =
      map_objective-IsMapped t.objective 5
        (record intent { max_tokens = min t.max_tokens intent.max_tokens }) policy e' h' in
    let tokens = ap EffectiveQos.max_tokens same ∙ m.tokens in
    record {
      template = t;
      authorized = found;
      requested = ap EffectiveQos.requested_objective same;
      within_template = ground (arith, tokens);
      within_intent = ground (arith, tokens);
      decided = e';
      same = same;
      mapped = m;
    }

pub map_fallback-IsFallback :
    (intent : WorkflowIntent) (policy : QosMapperPolicy) (e : EffectiveQos)
    → map_fallback intent policy ≡ applied e
    → IsFallback intent policy e
unfolding map_fallback
map_fallback-IsFallback intent policy e h =
    elim (Bool-cases (str_eq intent.fallback_template_id "")) [
      | inl blank ↦ absurd (unapplied no_fallback_available e (ground (arith, h, blank)))
      | inr named ↦
          fall_back-IsFallback (find_template intent.fallback_template_id policy.fallback_templates)
            intent policy e refl (ground (arith, h, named))
    ]
