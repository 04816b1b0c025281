-- ===== src/Base/Outcome.antt =====
-- Rust's `Result`, and the monad of a method that takes `&mut self` and may fail.
use mathlib.Core.Bool.{Bool, true, false}
use mathlib.Core.Path.{◌≡◌, refl, ap}
use mathlib.Core.Logic.{◌⊎◌, inl, inr}

pub data Result {ℓ κ} (E : Type ℓ) (A : Type κ) : Type (ℓ ⊔ κ) where
  ok : A → Result E A
  err : E → Result E A

pub Result-cases {ℓ κ} :
    {E : Type ℓ} {A : Type κ} (r : Result E A) → ((a : A) × (r ≡ ok a)) ⊎ ((e : E) × (r ≡ err e))
Result-cases (ok a) = inl (a, refl)
Result-cases (err e) = inr (e, refl)

-- A method over a state `S`: the state stands as it is when `?` returns early.
abbrev pub Method : Type 0 → Type 0 → Type 0 → Type 0
Method S E A = S → S × Result E A

module _ {S E A : Type 0} where
  infixl 5 ◌>>=◌ ◌>>◌
  abbrev pub ◌>>=◌ : {B : Type 0} → Method S E A → (A → Method S E B) → Method S E B
  ◌>>=◌ m f s = let (s', r) = m s in elim r [ ok a ↦ f a s' | err e ↦ (s', err e) ]

  abbrev pub ◌>>◌ : {B : Type 0} → Method S E A → Method S E B → Method S E B
  ◌>>◌ m k = m >>= λ _. k

  pub then-ok :
      {B : Type 0} (m : Method S E A) (k : Method S E B) (s s' : S) (a : A)
      → m s ≡ (s', ok a)
      → (m >> k) s ≡ k s'
  then-ok m k s s' a h = ap (λ x. elim x.1 [ ok a ↦ k x.0 | err e ↦ (x.0, err e) ]) h

  pub then-err :
      {B : Type 0} (m : Method S E A) (k : Method S E B) (s s' : S) (e : E)
      → m s ≡ (s', err e)
      → (m >> k) s ≡ (s', err e)
  then-err m k s s' e h = ap (λ x. elim x.1 [ ok a ↦ k x.0 | err e ↦ (x.0, err e) ]) h

  abbrev pub pure : A → Method S E A
  pure a s = (s, ok a)

module _ {S E : Type 0} where
  abbrev pub modify : (S → S) → Method S E (Unit {0})
  modify f s = (f s, ok tt)

abbrev pub is_ok {ℓ κ} : {E : Type ℓ} {A : Type κ} → Result E A → Bool
is_ok (ok a) = true
is_ok (err e) = false
