-- ===== src/Workflow/QosMapper/Choice.antt =====
-- The choice among the models of LOW_COST: crates/workflow-engine/src/qos_mapper.rs.
use dds_llm_orchestrator.Base.{
  ℕ, ◌+◌, ◌≤◌, ◌<◌, String, Bool, true, false, ◌≡◌, refl, Option, none, some, List, [], ◌∷◌, leb,
  if◌then◌else◌, eq_refl, All, arith,
}
use dds_llm_orchestrator.Base.Dict.{mem}
use dds_llm_orchestrator.Workflow.QosMapper.{PriceTable, estimate_cost, pick, join, cheaper}

-- No model among these has a lower estimate.
abbrev pub AtLeast : ℕ → ℕ → PriceTable → List String → Type 0
AtLeast c k prices ms = All (λ n. (d : ℕ) → estimate_cost n k prices ≡ some d → c ≤ d) ms

AtLeast-weaken :
    (c d k : ℕ) (prices : PriceTable) (ms : List String)
    → c ≤ d
    → AtLeast d k prices ms
    → AtLeast c k prices ms
AtLeast-weaken c d k prices [] h a = tt
AtLeast-weaken c d k prices (m ∷ ms) h (a, rest) =
    (λ e known. ground (arith, h, a e known), AtLeast-weaken c d k prices ms h rest)

-- What the choice of a model says of the list that it was made from.
unfoldable pub Chosen : Option (ℕ × String) → ℕ → ℕ → PriceTable → List String → Type 0
Chosen none k budget prices ms = AtLeast (budget + 1) k prices ms
Chosen (some (c, m)) k budget prices ms =
    (mem m ms ≡ true) × (estimate_cost m k prices ≡ some c) × (c ≤ budget) × AtLeast c k prices ms

-- A model at the head of the list that is passed over.
passed-Chosen :
    (best : Option (ℕ × String)) (k budget : ℕ) (prices : PriceTable) (m : String)
    (ms : List String)
    → ((d : ℕ) → estimate_cost m k prices ≡ some d → budget < d)
    → Chosen best k budget prices ms
    → Chosen best k budget prices (m ∷ ms)
unfolding Chosen mem
passed-Chosen none k budget prices m ms over h = (λ d known. ground (arith, over d known), h)
passed-Chosen (some (d, n)) k budget prices m ms over (i, c, w, a) =
    (ground (arith, i), c, w, (λ x known. ground (arith, w, over x known), a))

-- A model at the head of the list that is taken,.
taken-Chosen :
    (c : ℕ) (k budget : ℕ) (prices : PriceTable) (m : String) (ms : List String)
    → estimate_cost m k prices ≡ some c
    → c ≤ budget
    → AtLeast c k prices ms
    → Chosen (some (c, m)) k budget prices (m ∷ ms)
unfolding Chosen mem
taken-Chosen c k budget prices m ms e w a =
    (ground (arith, eq_refl m), e, w, (λ d known. ground (arith, e, known), a))

compared-Chosen :
    (b : Bool) (c d k budget : ℕ) (prices : PriceTable) (m n : String) (ms : List String)
    → leb c d ≡ b
    → estimate_cost m k prices ≡ some c
    → c ≤ budget
    → Chosen (some (d, n)) k budget prices ms
    → Chosen (if b then some (c, m) else some (d, n)) k budget prices (m ∷ ms)
unfolding Chosen mem
compared-Chosen true c d k budget prices m n ms e known w (i, x, y, a) =
    taken-Chosen c k budget prices m ms known w
      (AtLeast-weaken c d k prices ms (ground (arith, e)) a)
compared-Chosen false c d k budget prices m n ms e known w (i, x, y, a) =
    (ground (arith, i), x, y, (λ z known'. ground (arith, e, known, known'), a))

cheaper-Chosen :
    (c : ℕ) (best : Option (ℕ × String)) (k budget : ℕ) (prices : PriceTable) (m : String)
    (ms : List String)
    → estimate_cost m k prices ≡ some c
    → c ≤ budget
    → Chosen best k budget prices ms
    → Chosen (cheaper c m best) k budget prices (m ∷ ms)
unfolding Chosen
cheaper-Chosen c none k budget prices m ms e w h =
    taken-Chosen c k budget prices m ms e w
      (AtLeast-weaken c (budget + 1) k prices ms (ground (arith, w)) h)
cheaper-Chosen c (some (d, n)) k budget prices m ms e w h =
    compared-Chosen (leb c d) c d k budget prices m n ms refl e w h

fitting-Chosen :
    (b : Bool) (c : ℕ) (best : Option (ℕ × String)) (k budget : ℕ) (prices : PriceTable)
    (m : String) (ms : List String)
    → leb c budget ≡ b
    → estimate_cost m k prices ≡ some c
    → Chosen best k budget prices ms
    → Chosen (if b then cheaper c m best else best) k budget prices (m ∷ ms)
fitting-Chosen true c best k budget prices m ms e known h =
    cheaper-Chosen c best k budget prices m ms known (ground (arith, e)) h
fitting-Chosen false c best k budget prices m ms e known h =
    passed-Chosen best k budget prices m ms (λ d known'. ground (arith, e, known, known')) h

-- A further model at the head of the list.
join-Chosen :
    (o : Option ℕ) (best : Option (ℕ × String)) (k budget : ℕ) (prices : PriceTable) (m : String)
    (ms : List String)
    → estimate_cost m k prices ≡ o
    → Chosen best k budget prices ms
    → Chosen (join o budget m best) k budget prices (m ∷ ms)
join-Chosen none best k budget prices m ms e h =
    passed-Chosen best k budget prices m ms (λ d known. ground (arith, e, known)) h
join-Chosen (some c) best k budget prices m ms e h =
    fitting-Chosen (leb c budget) c best k budget prices m ms refl e h

pub pick-Chosen :
    (k budget : ℕ) (prices : PriceTable) (ms : List String)
    → Chosen (pick k budget prices ms) k budget prices ms
unfolding pick Chosen
pick-Chosen k budget prices [] = tt
pick-Chosen k budget prices (m ∷ ms) =
    join-Chosen (estimate_cost m k prices) (pick k budget prices ms) k budget prices m ms refl
      (pick-Chosen k budget prices ms)
