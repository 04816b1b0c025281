-- ===== src/Base/Keeps.antt =====
-- Predicates on the state that a method of `Outcome` keeps.
use mathlib.Core.Bool.{Bool, true, false}
use mathlib.Core.Path.{◌≡◌, refl}
use mathlib.Core.Option.{Option, none, some}
use dds_llm_orchestrator.Base.Outcome.{Result, ok, err, Method, ◌>>◌, ◌>>=◌}
use dds_llm_orchestrator.Base.Tests.{if◌then◌else◌}

-- What a method keeps, whatever it returns.
abbrev pub Keeps : {S E A : Type 0} → (S → Type 0) → Method S E A → Type 0
Keeps {S = S} P m = (s : S) → P s → P (m s).0

module _ {S E : Type 0} (P : S → Type 0) where
  pub after_reply :
      {A B : Type 0} (r : Result E A) (j j' : S) (k : Method S E B)
      → P j
      → P j'
      → Keeps P k
      → P (elim r as (λ _. S × Result E B) [ ok a ↦ k j | err e ↦ (j', err e) ]).0
  after_reply (ok a) j j' k p p' h = h j p
  after_reply (err e) j j' k p p' h = p'

  bind_reply :
      {A B : Type 0} (r : Result E A) (s : S) (f : A → Method S E B)
      → P s
      → ((a : A) → Keeps P (f a))
      → P (elim r as (λ _. S × Result E B) [ ok a ↦ f a s | err e ↦ (s, err e) ]).0
  bind_reply (ok a) s f p h = h a s p
  bind_reply (err e) s f p h = p

  pub Keeps-then :
      {A B : Type 0} (m : Method S E A) (k : Method S E B)
      → Keeps P m
      → Keeps P k
      → Keeps P (m >> k)
  Keeps-then m k hm hk j p = after_reply (m j).1 (m j).0 (m j).0 k (hm j p) (hm j p) hk

  pub keeps_lookup :
      {A V : Type 0} (o : Option V) (x : S × Result E A) (f : V → S × Result E A)
      → P x.0
      → ((v : V) → P (f v).0)
      → P (elim o as (λ _. S × Result E A) [ none ↦ x | some v ↦ f v ]).0
  keeps_lookup none x f p h = p
  keeps_lookup (some v) x f p h = h v

  pub keeps_test :
      {A : Type 0} (b : Bool) (x y : S × Result E A) → P x.0 → P y.0 → P (if b then x else y).0
  keeps_test true x y p q = p
  keeps_test false x y p q = q

  pub Keeps-bind :
      {A B : Type 0} (m : Method S E A) (f : A → Method S E B)
      → Keeps P m
      → ((a : A) → Keeps P (f a))
      → Keeps P (m >>= f)
  Keeps-bind m f hm hf s p = bind_reply (m s).1 (m s).0 f (hm s p) hf

  -- A test between two methods, with what it says of the test.
  pub branch :
      {A : Type 0} (b : Bool) (m k : Method S E A) (s : S)
      → (b ≡ true → P (m s).0)
      → (b ≡ false → P (k s).0)
      → P ((if b then m else k) s).0
  branch true m k s h h' = h refl
  branch false m k s h h' = h' refl

-- A method that keeps `P` hands its state to one that turns `P` into `R`.
module _ {S E : Type 0} (P R : S → Type 0) (weaken : (s : S) → P s → R s) where
  reply_to :
      {A B : Type 0} (r : Result E A) (s : S) (f : A → Method S E B)
      → P s
      → ((a : A) (s : S) → P s → R (f a s).0)
      → R (elim r as (λ _. S × Result E B) [ ok a ↦ f a s | err e ↦ (s, err e) ]).0
  reply_to (ok a) s f p h = h a s p
  reply_to (err e) s f p h = weaken s p

  pub establish :
      {A B : Type 0} (m : Method S E A) (f : A → Method S E B) (s : S)
      → Keeps P m
      → P s
      → ((a : A) (s : S) → P s → R (f a s).0)
      → R ((m >>= f) s).0
  establish m f s hm p h = reply_to (m s).1 (m s).0 f (hm s p) h
