-- ===== src/Policy/Document/Merge.antt =====
-- What a merge leaves at each path of the document: `deep_merge` of crates/policy-engine/src/rules.rs.
use dds_llm_orchestrator.Base.{
  ◌≡◌, refl, ◌⊎◌, inl, inr, ap, ◌∙◌, sym, String, true, false, Option, none, some, List, [], ◌∷◌,
  arith, eq_iff, Option-cases,
}
use dds_llm_orchestrator.Policy.Json.{
  Value, object, Fields, end, field, get_field, upsert, get, is_object, get_field-upsert, at, IsMap,
  AreMaps,
}
use dds_llm_orchestrator.Policy.Document.{deep_merge, merge_fields}

-- Key by key: what either side has alone is kept, what both have is merged.
abbrev pub merged : Option Value → Option Value → Option Value
merged b none = b
merged none (some v) = some v
merged (some w) (some v) = some (deep_merge w v)

merge_fields-get :
    (k : String) (b d : Fields)
    → AreMaps d
    → get_field k (merge_fields b d) ≡ merged (get_field k b) (get_field k d)
unfolding merge_fields get_field
merge_fields-get k b end m = refl
merge_fields-get k b (field j v d) m = ground (
  arith,
  eq_iff j k,
  merge_fields-get k (upsert j (λ bv. deep_merge bv v) v b) d m.2,
  get_field-upsert j k (λ bv. deep_merge bv v) v b,
)

get_field-IsMap :
    (k : String) (d : Fields) (v : Value) → AreMaps d → get_field k d ≡ some v → IsMap v
unfolding get_field
get_field-IsMap k end v m e = cc
get_field-IsMap k (field j w d) v m e = ground (arith, get_field-IsMap k d v m.2)

pub get-IsMap : (k : String) (d v : Value) → IsMap d → get k d ≡ some v → IsMap v
unfolding get
get-IsMap k (object d) v m e = get_field-IsMap k d v m e
get-IsMap k _ v m e = cc

deep_merge-leaf : (b d : Value) → is_object d ≡ false → deep_merge b d ≡ d
unfolding deep_merge is_object
deep_merge-leaf (object b) (object d) h = cc
deep_merge-leaf _ _ h = refl

pub at-nil : (v : Value) → at [] v ≡ some v
unfolding at
at-nil v = refl

-- One key further down.
pub at-step :
    (k : String) (p : List String) (v w : Value) → get k v ≡ some w → at (k ∷ p) v ≡ at p w
unfolding at
at-step k p v w e = rw (e, at)

pub at-none : (k : String) (p : List String) (v : Value) → get k v ≡ none → at (k ∷ p) v ≡ none
unfolding at
at-none k p v e = rw (e, at)

merge-get :
    (k : String) (b d v : Value)
    → IsMap d
    → get k d ≡ some v
    → ((get k (deep_merge b d) ≡ some v) × (get k b ≡ none))
      ⊎ ((w : Value) × (get k b ≡ some w) × (get k (deep_merge b d) ≡ some (deep_merge w v)))
unfolding get deep_merge
merge-get k (object b) (object d) v m e = elim (Option-cases (get_field k b)) [
  | inl n ↦ inl (rw (merge_fields-get k b d m, n, e), n)
  | inr (w, n) ↦ inr (w, n, rw (merge_fields-get k b d m, n, e))
]
merge-get k _ (object d) v m e = inl (e, refl)
merge-get k b _ v m e = cc

-- A path through the delta reaches a value that is no object exactly as it stands in the delta,
-- whatever the document held there before.
pub deep_merge-at_leaf :
    (p : List String) (b d leaf : Value)
    → IsMap d
    → at p d ≡ some leaf
    → is_object leaf ≡ false
    → at p (deep_merge b d) ≡ some leaf
deep_merge-at_leaf [] b d leaf m e l =
    let same : d ≡ leaf = cc (at-nil d) in
    at-nil (deep_merge b d) ∙ ap (λ (v : Value). some v) (deep_merge-leaf b d (rw same l) ∙ same)
deep_merge-at_leaf (k ∷ p) b d leaf m e l = elim (Option-cases (get k d)) [
  | inl n ↦ cc (at-none k p d n)
  | inr (v, n) ↦ elim (merge-get k b d v m n) [
    | inl (q, _) ↦ at-step k p (deep_merge b d) v q ∙ sym (at-step k p d v n) ∙ e
    | inr (w, _, q) ↦
        at-step k p (deep_merge b d) (deep_merge w v) q
        ∙ deep_merge-at_leaf p w v leaf (get-IsMap k d v m n) (sym (at-step k p d v n) ∙ e) l
  ]
]

-- The delta has nothing on the path: it leaves it at some object.
abbrev pub Spares : List String → Value → Type 0
Spares [] d = ⊥
Spares (k ∷ p) d =
    (get k d ≡ none) ⊎ ((v : Value) × (get k d ≡ some v) × (is_object v ≡ true) × Spares p v)

spared-none : (p : List String) (d : Value) → Spares p d → at p d ≡ none
spared-none [] d s = absurd s
spared-none (k ∷ p) d (inl n) = at-none k p d n
spared-none (k ∷ p) d (inr (v, n, _, s)) = at-step k p d v n ∙ spared-none p v s

-- What a merge makes of the value under a key that the delta does not have.
merge-get-none :
    (k : String) (b d : Value)
    → IsMap d
    → is_object d ≡ true
    → get k d ≡ none
    → get k (deep_merge b d) ≡ get k b
unfolding get deep_merge is_object
merge-get-none k (object b) (object d) m o n = rw (merge_fields-get k b d m, n)
merge-get-none k _ (object d) m o n = n
merge-get-none k b _ m o n = cc

pub at-congr :
    (k : String) (p : List String) (v w : Value) → get k v ≡ get k w → at (k ∷ p) v ≡ at (k ∷ p) w
unfolding at
at-congr k p v w e = rw (e, at)

-- Every path that the delta leaves at an object reads after the merge as it did before.
pub deep_merge-at_spared :
    (p : List String) (b d : Value)
    → IsMap d
    → is_object d ≡ true
    → Spares p d
    → at p (deep_merge b d) ≡ at p b
deep_merge-at_spared [] b d m o s = absurd s
deep_merge-at_spared (k ∷ p) b d m o (inl n) =
    at-congr k p (deep_merge b d) b (merge-get-none k b d m o n)
deep_merge-at_spared (k ∷ p) b d m o (inr (v, n, o', s)) = elim (merge-get k b d v m n) [
  | inl (q, f) ↦ at-step k p (deep_merge b d) v q ∙ spared-none p v s ∙ sym (at-none k p b f)
  | inr (w, r, q) ↦
      at-step k p (deep_merge b d) (deep_merge w v) q
      ∙ deep_merge-at_spared p w v (get-IsMap k d v m n) o' s
      ∙ sym (at-step k p b w r)
]
