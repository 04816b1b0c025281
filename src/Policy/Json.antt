-- ===== src/Policy/Json.antt =====
-- The documented shape of a `serde_json::Value`, and the operations on it that the policy engine
-- calls. A map keeps its entries in a list; where its keys are distinct, the order plays no part.
use dds_llm_orchestrator.Base.{
  ℕ, ℤ, ◌≡◌, refl, String, Bool, true, false, Option, none, some, List, [], ◌∷◌, arith, str_eq,
  eq_iff, if◌then◌else◌,
}

-- A float is kept as its bit pattern.
pub data Number : Type 0 where
  int : ℤ → Number
  float : ℕ → Number

mutual
  pub data Value : Type 0 where
    null : Value
    bool : Bool → Value
    number : Number → Value
    string : String → Value
    array : Items → Value
    object : Fields → Value

  pub data Fields : Type 0 where
    end : Fields
    field : String → Value → Fields → Fields

  pub data Items : Type 0 where
    nil : Items
    cons : Value → Items → Items

unfoldable pub get_field : String → Fields → Option Value
get_field k end = none
get_field k (field j v fs) = if str_eq j k then some v else get_field k fs

-- Writes `f` of the value under the key, or `v` where there is none.
unfoldable pub upsert : String → (Value → Value) → Value → Fields → Fields
upsert k f v end = field k v end
upsert k f v (field j w fs) = if str_eq j k then field j (f w) fs else field j w (upsert k f v fs)

-- Rewrites the value under the key, if there is one.
unfoldable pub update : String → (Value → Value) → Fields → Fields
update k f end = end
update k f (field j w fs) = if str_eq j k then field j (f w) fs else field j w (update k f fs)

unfoldable pub remove_field : String → Fields → Fields
remove_field k end = end
remove_field k (field j w fs) =
    let rest = remove_field k fs in if str_eq j k then rest else field j w rest

-- `Value::get` with a string.
unfoldable pub get : String → Value → Option Value
unfolding get_field
get k (object fs) = get_field k fs
get k _ = none

unfoldable pub is_object : Value → Bool
is_object (object fs) = true
is_object _ = false

unfoldable pub is_null : Value → Bool
is_null null = true
is_null _ = false

unfoldable pub as_str : Value → Option String
as_str (string s) = some s
as_str _ = none

unfoldable pub as_i64 : Value → Option ℤ
as_i64 (number (int z)) = some z
as_i64 _ = none

-- The strings among the items.
unfoldable pub strings : Items → List String
strings nil = []
strings (cons (string s) xs) = s ∷ strings xs
strings (cons _ xs) = strings xs

pub get_field-upsert :
    (k j : String) (f : Value → Value) (v : Value) (fs : Fields)
    → get_field j (upsert k f v fs) ≡ (
        if str_eq k j
        then some (elim (get_field j fs) [ none ↦ v | some w ↦ f w ])
        else get_field j fs)
unfolding get_field upsert
get_field-upsert k j f v end = refl
get_field-upsert k j f v (field i w fs) =
    ground (arith, eq_iff i k, eq_iff i j, eq_iff k j, get_field-upsert k j f v fs)

pub get_field-update :
    (k j : String) (f : Value → Value) (fs : Fields)
    → get_field j (update k f fs) ≡ (
        if str_eq k j
        then (elim (get_field j fs) [ none ↦ none | some w ↦ some (f w) ])
        else get_field j fs)
unfolding get_field update
get_field-update k j f end = ground arith
get_field-update k j f (field i w fs) =
    ground (arith, eq_iff i k, eq_iff i j, eq_iff k j, get_field-update k j f fs)

pub get_field-remove_field :
    (k j : String) (fs : Fields)
    → get_field j (remove_field k fs) ≡ (if str_eq k j then none else get_field j fs)
unfolding get_field remove_field
get_field-remove_field k j end = ground arith
get_field-remove_field k j (field i w fs) =
    ground (arith, eq_iff i k, eq_iff i j, eq_iff k j, get_field-remove_field k j fs)

-- The value at a path of keys.
unfoldable pub at : List String → Value → Option Value
unfolding get
at [] v = some v
at (k ∷ p) v = elim (get k v) [ none ↦ none | some w ↦ at p w ]

-- The keys of every object are distinct, as those of a map are.
abbrev mutual
  pub IsMap : Value → Type 0
  IsMap (object fs) = AreMaps fs
  IsMap (array xs) = Unit
  IsMap null = Unit
  IsMap (bool b) = Unit
  IsMap (number n) = Unit
  IsMap (string s) = Unit

  pub AreMaps : Fields → Type 0
  AreMaps end = Unit
  AreMaps (field k v fs) = (get_field k fs ≡ none) × IsMap v × AreMaps fs
