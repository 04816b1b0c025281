-- ===== src/Workflow/Journal/Totals.antt =====
-- Sums over the entries of a dictionary.
use dds_llm_orchestrator.Base.{ℤ, pos, ◌+ℤ◌, String, ◌≡◌, none, some, [], ◌∷◌, int_laws}
use dds_llm_orchestrator.Base.Dict.{Dict, lookup, insert}

module _ {ℓ} {V : Type ℓ} where
  abbrev pub total : (V → ℤ) → Dict V → ℤ
  total f [] = pos 0
  total f ((k, v) ∷ m) = f v +ℤ total f m

  pub total-insert_new :
      (f : V → ℤ) (k : String) (v : V) (m : Dict V)
      → lookup k m ≡ none
      → total f (insert k v m) ≡ total f m +ℤ f v
  unfolding insert lookup
  total-insert_new f k v [] h = omega int_laws
  total-insert_new f k v ((j, w) ∷ m) h = grind (int_laws, total-insert_new f k v m)

  pub total-insert_over :
      (f : V → ℤ) (k : String) (v w : V) (m : Dict V)
      → lookup k m ≡ some w
      → total f (insert k v m) +ℤ f w ≡ total f m +ℤ f v
  unfolding insert lookup
  total-insert_over f k v w [] h = cc
  total-insert_over f k v w ((j, x) ∷ m) h = grind (int_laws, total-insert_over f k v w m)
