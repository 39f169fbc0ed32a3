-- ===== src/Prelude/Results.antt =====
-- What a Go function ends with: a value, an `error`, or a run-time panic.
use mathlib.Core.Path.{◌≡◌, refl}
use mathlib.Core.Logic.{◌⊎◌, inl, inr}
use mathlib.Core.Bool.{Bool, true, false}
use mathlib.Core.Option.{Option, none, some}

pub data Outcome {ℓ} (E : Type ℓ) (A : Type ℓ) : Type ℓ where
  ok : A → Outcome E A
  err : E → Outcome E A
  panic : Outcome E A

module _ {ℓ} {E : Type ℓ} where
  -- `if cond { return err }`
  abbrev pub refuse_if : Bool → E → Outcome E (Unit {ℓ})
  refuse_if false e = ok tt
  refuse_if true e = err e

  infixl 5 ◌>>=◌ ◌>>◌
  abbrev pub ◌>>=◌ : {A B : Type ℓ} → Outcome E A → (A → Outcome E B) → Outcome E B
  panic >>= f = panic
  err e >>= f = err e
  ok a >>= f = f a

  abbrev pub ◌>>◌ : {B : Type ℓ} → Outcome E (Unit {ℓ}) → Outcome E B → Outcome E B
  m >> k = m >>= λ _. k

  -- `v, ok := ...; if !ok { return err }`
  abbrev pub or_refuse : {A : Type ℓ} → Option A → E → Outcome E A
  or_refuse none e = err e
  or_refuse (some a) e = ok a

  pub >>=-eq-ok :
      {A B : Type ℓ} (m : Outcome E A) (f : A → Outcome E B) {b : B}
      → (m >>= f) ≡ ok b
      → (a : A) × (m ≡ ok a) × (f a ≡ ok b)
  >>=-eq-ok panic f h = cc
  >>=-eq-ok (err e) f h = cc
  >>=-eq-ok (ok a) f h = (a, refl, h)

  pub Outcome-cases :
      {A : Type ℓ} (o : Outcome E A)
      → ((a : A) × (o ≡ ok a)) ⊎ ((e : E) × (o ≡ err e)) ⊎ (o ≡ panic)
  Outcome-cases (ok a) = inl (a, refl)
  Outcome-cases (err e) = inr (inl (e, refl))
  Outcome-cases panic = inr (inr refl)
