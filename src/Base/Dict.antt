-- ===== src/Base/Dict.antt =====
-- Hash maps with string keys (`HashMap`, `DashMap`) as association lists. The order of the entries
-- is that of insertion; the program's maps promise none.
use Prim.Native.String.{String}
use mathlib.Core.Path.{◌≡◌, refl, ap}
use mathlib.Core.Bool.{Bool, true, false}
use mathlib.Core.Option.{Option, none, some}
use mathlib.Core.List.{List, [], ◌∷◌}
use native.Mathlib.Omega.{arith}
use text.Mathlib.Text.{◌==◌ as str_eq}
use text.Mathlib.TextEquality.{eq_iff}
use dds_llm_orchestrator.Base.Tests.{if◌then◌else◌}
use dds_llm_orchestrator.Base.Lists.{length}
use Prim.Native.Nat.{suc}

abbrev pub Dict {ℓ} : Type ℓ → Type ℓ
Dict V = List (String × V)

-- Is the key among these?
unfoldable pub mem : String → List String → Bool
mem k [] = false
mem k (j ∷ js) = if str_eq j k then true else mem k js

module _ {ℓ} {V : Type ℓ} where
  unfoldable pub lookup : String → Dict V → Option V
  lookup key [] = none
  lookup key ((a, x) ∷ rest) = if str_eq a key then some x else lookup key rest

  unfoldable pub contains_key : String → Dict V → Bool
  unfolding lookup
  contains_key k m = elim (lookup k m) [ none ↦ false | some v ↦ true ]

  unfoldable pub insert : String → V → Dict V → Dict V
  insert key x [] = (key, x) ∷ []
  insert key x ((a, y) ∷ rest) =
      if str_eq a key then (key, x) ∷ rest else (a, y) ∷ insert key x rest

  unfoldable pub remove : String → Dict V → Dict V
  remove k [] = []
  remove k ((j, w) ∷ m) = let rest = remove k m in if str_eq j k then rest else (j, w) ∷ rest

  -- The entries that a test keeps.
  unfoldable pub retain : (String → V → Bool) → Dict V → Dict V
  retain p [] = []
  retain p ((j, w) ∷ m) = let rest = retain p m in if p j w then (j, w) ∷ rest else rest

  abbrev pub keys : Dict V → List String
  keys [] = []
  keys ((j, w) ∷ m) = j ∷ keys m

  abbrev pub keep_if : Bool → V → Option V
  keep_if b v = if b then some v else none

-- No key stands twice.
abbrev pub Distinct {ℓ} : {V : Type ℓ} → List (String × V) → Type ℓ
Distinct [] = Unit
Distinct ((j, w) ∷ m) = (lookup j m ≡ none) × Distinct m

module _ {ℓ} {V : Type ℓ} where
  pub lookup-insert :
      (new old : String) (x : V) (m : Dict V)
      → lookup old (insert new x m) ≡ (if str_eq new old then some x else lookup old m)
  unfolding insert lookup
  lookup-insert new old x [] = refl
  lookup-insert new old x ((a, y) ∷ rest) =
      ground (arith, lookup-insert new old x rest, eq_iff a new, eq_iff a old, eq_iff new old)

  pub lookup-remove :
      (gone old : String) (m : Dict V)
      → lookup old (remove gone m) ≡ (if str_eq gone old then none else lookup old m)
  unfolding remove lookup
  lookup-remove gone old [] = ground arith
  lookup-remove gone old ((a, y) ∷ rest) =
      ground (arith, lookup-remove gone old rest, eq_iff a gone, eq_iff a old, eq_iff gone old)

  -- A key that is not there is not there after a `retain`.
  pub lookup-retain-none :
      (p : String → V → Bool) (k : String) (m : Dict V)
      → lookup k m ≡ none
      → lookup k (retain p m) ≡ none
  unfolding lookup retain
  lookup-retain-none p k [] h = refl
  lookup-retain-none p k ((i, w) ∷ m) h = ground (arith, lookup-retain-none p k m)

  pub lookup-retain :
      (p : String → V → Bool) (k : String) (m : Dict V)
      → Distinct m
      → lookup k (retain p m) ≡ (elim (lookup k m) [ none ↦ none | some v ↦ keep_if (p k v) v ])
  unfolding lookup retain
  lookup-retain p k [] d = refl
  lookup-retain p k ((i, w) ∷ m) d =
      ground (arith, eq_iff i k, lookup-retain p k m d.1, lookup-retain-none p i m d.0)

  pub insert-Distinct : (k : String) (v : V) (m : Dict V) → Distinct m → Distinct (insert k v m)
  unfolding insert lookup
  insert-Distinct k v [] d = (refl, tt)
  insert-Distinct k v ((i, w) ∷ m) d =
      ground (arith, eq_iff i k, eq_iff k i, lookup-insert k i v m, insert-Distinct k v m d.1)

  pub remove-Distinct : (k : String) (m : Dict V) → Distinct m → Distinct (remove k m)
  unfolding remove
  remove-Distinct k [] d = tt
  remove-Distinct k ((i, w) ∷ m) d = ground (arith, lookup-remove k i m, remove-Distinct k m d.1)

  pub retain-Distinct : (p : String → V → Bool) (m : Dict V) → Distinct m → Distinct (retain p m)
  unfolding retain
  retain-Distinct p [] d = tt
  retain-Distinct p ((i, w) ∷ m) d =
      ground (arith, lookup-retain-none p i m d.0, retain-Distinct p m d.1)

  pub eq_empty : (m : Dict V) → ((k : String) → lookup k m ≡ none) → m ≡ []
  unfolding lookup
  eq_empty [] h = refl
  eq_empty ((j, w) ∷ m) h = ground (arith, h j, eq_iff j j)

  pub insert-same : (k : String) (v : V) (m : Dict V) → lookup k m ≡ some v → insert k v m ≡ m
  unfolding insert lookup
  insert-same k v [] h = cc
  insert-same k v ((j, w) ∷ m) h = ground (arith, eq_iff j k, insert-same k v m)

  pub mem-keys :
      (k : String) (m : Dict V)
      → mem k (keys m) ≡ (elim (lookup k m) [ none ↦ false | some v ↦ true ])
  unfolding mem lookup
  mem-keys k [] = refl
  mem-keys k ((j, v) ∷ m) = ground (arith, mem-keys k m)

  pub length-keys : (m : Dict V) → length (keys m) ≡ length m
  length-keys [] = refl
  length-keys ((j, v) ∷ m) = ap suc (length-keys m)

module _ {ℓ κ} {V : Type ℓ} {W : Type κ} where
  abbrev pub map_values : (V → W) → Dict V → Dict W
  map_values f [] = []
  map_values f ((j, v) ∷ m) = (j, f v) ∷ map_values f m

  abbrev pub map_option : (V → W) → Option V → Option W
  map_option f none = none
  map_option f (some v) = some (f v)

  pub lookup-map_values :
      (f : V → W) (k : String) (m : Dict V) → lookup k (map_values f m) ≡ map_option f (lookup k m)
  unfolding lookup
  lookup-map_values f k [] = refl
  lookup-map_values f k ((j, v) ∷ m) = ground (arith, lookup-map_values f k m)

  pub map_values-insert :
      (f : V → W) (k : String) (v : V) (m : Dict V)
      → map_values f (insert k v m) ≡ insert k (f v) (map_values f m)
  unfolding insert
  map_values-insert f k v [] = refl
  map_values-insert f k v ((j, w) ∷ m) = ground (arith, map_values-insert f k v m)

  pub map_values-remove :
      (f : V → W) (k : String) (m : Dict V) → map_values f (remove k m) ≡ remove k (map_values f m)
  unfolding remove
  map_values-remove f k [] = refl
  map_values-remove f k ((j, w) ∷ m) = ground (arith, map_values-remove f k m)
