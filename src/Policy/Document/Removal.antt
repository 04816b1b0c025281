-- ===== src/Policy/Document/Removal.antt =====
-- What a removal leaves at each path of the document: `remove_paths` of
-- crates/policy-engine/src/rules.rs.
use dds_llm_orchestrator.Base.{
  ◌≡◌, refl, ◌⊎◌, inl, inr, ap, ◌∙◌, sym, String, true, false, Option, none, some, List, [], ◌∷◌,
  arith, eq_iff, if◌then◌else◌, Option-cases, Bool-cases,
}
use dds_llm_orchestrator.Policy.Json.{
  Value, object, Fields, end, field, get_field, update, remove_field, get, is_object,
  get_field-update, get_field-remove_field, at, IsMap, AreMaps,
}
use dds_llm_orchestrator.Policy.Document.{remove_paths, remove_all}
use dds_llm_orchestrator.Policy.Document.Merge.{
  get-IsMap, at-nil, at-step, at-congr, at-none, Spares,
}

-- Key by key: an object of the delta goes down into the value, anything else takes the key out.
abbrev pub removed : Option Value → Option Value → Option Value
removed b none = b
removed none (some v) = none
removed (some w) (some v) = if is_object v then some (remove_paths w v) else none

remove_all-get :
    (k : String) (b d : Fields)
    → AreMaps d
    → get_field k (remove_all b d) ≡ removed (get_field k b) (get_field k d)
unfolding remove_all get_field
remove_all-get k b end m = refl
remove_all-get k b (field j v d) m = elim (Bool-cases (is_object v)) [
  | inl o ↦ ground (
    arith,
    eq_iff j k,
    remove_all-get k (update j (λ bv. remove_paths bv v) b) d m.2,
    get_field-update j k (λ bv. remove_paths bv v) b,
  )
  | inr o ↦
      ground
        (arith, eq_iff j k, remove_all-get k (remove_field j b) d m.2, get_field-remove_field j k b)
]

remove-get :
    (k : String) (b d v : Value)
    → IsMap d
    → get k d ≡ some v
    → ((get k (remove_paths b d) ≡ none) × ((is_object v ≡ false) ⊎ (get k b ≡ none)))
      ⊎ ((w : Value) × (get k b ≡ some w)
          × (is_object v ≡ true)
          × (get k (remove_paths b d) ≡ some (remove_paths w v)))
unfolding get remove_paths
remove-get k (object b) (object d) v m e = elim (Option-cases (get_field k b)) [
  | inl n ↦ inl (rw (remove_all-get k b d m, n, e), inr n)
  | inr (w, n) ↦ elim (Bool-cases (is_object v)) [
    | inl o ↦ inr (w, n, o, rw (remove_all-get k b d m, n, e) (rw o))
    | inr o ↦ inl (rw (remove_all-get k b d m, n, e) (rw o), inl o)
  ]
]
remove-get k _ (object d) v m e = inl (refl, inr refl)
remove-get k b _ v m e = cc

remove-get-none :
    (k : String) (b d : Value) → IsMap d → get k d ≡ none → get k (remove_paths b d) ≡ get k b
unfolding get remove_paths
remove-get-none k (object b) (object d) m n = rw (remove_all-get k b d m, n)
remove-get-none k _ (object d) m n = refl
remove-get-none k (object b) _ m n = refl
remove-get-none k _ _ m n = refl

pub at-object :
    (k : String) (p : List String) (d leaf : Value) → at (k ∷ p) d ≡ some leaf → is_object d ≡ true
unfolding at get is_object
at-object k p (object d) leaf e = refl
at-object k p _ leaf e = cc

-- Under an object of the delta, so that the path has a key left.
below :
    (p : List String) (b d leaf : Value)
    → IsMap d
    → is_object d ≡ true
    → at p d ≡ some leaf
    → is_object leaf ≡ false
    → at p (remove_paths b d) ≡ none
below [] b d leaf m o e l = let same : d ≡ leaf = cc (at-nil d) in cc (ap is_object same)
below (k ∷ p) b d leaf m o e l = elim (Option-cases (get k d)) [
  | inl n ↦ cc (at-none k p d n)
  | inr (v, n) ↦ elim (remove-get k b d v m n) [
    | inl (q, _) ↦ at-none k p (remove_paths b d) q
    | inr (w, _, o', q) ↦
        at-step k p (remove_paths b d) (remove_paths w v) q
        ∙ below p w v leaf (get-IsMap k d v m n) o' (sym (at-step k p d v n) ∙ e) l
  ]
]

-- A path below the root on which the delta has a value that is no object is gone after the removal.
pub remove_paths-at_leaf :
    (k : String) (p : List String) (b d leaf : Value)
    → IsMap d
    → at (k ∷ p) d ≡ some leaf
    → is_object leaf ≡ false
    → at (k ∷ p) (remove_paths b d) ≡ none
remove_paths-at_leaf k p b d leaf m e l = below (k ∷ p) b d leaf m (at-object k p d leaf e) e l

-- Every path that the delta leaves at an object reads after the removal as it did before.
pub remove_paths-at_spared :
    (p : List String) (b d : Value) → IsMap d → Spares p d → at p (remove_paths b d) ≡ at p b
remove_paths-at_spared [] b d m s = absurd s
remove_paths-at_spared (k ∷ p) b d m (inl n) =
    at-congr k p (remove_paths b d) b (remove-get-none k b d m n)
remove_paths-at_spared (k ∷ p) b d m (inr (v, n, o, s)) = elim (remove-get k b d v m n) [
  | inl (q, inl f) ↦ cc
  | inl (q, inr f) ↦ at-congr k p (remove_paths b d) b (q ∙ sym f)
  | inr (w, r, _, q) ↦
      at-step k p (remove_paths b d) (remove_paths w v) q
      ∙ remove_paths-at_spared p w v (get-IsMap k d v m n) s
      ∙ sym (at-step k p b w r)
]
