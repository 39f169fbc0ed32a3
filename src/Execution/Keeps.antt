-- ===== src/Execution/Keeps.antt =====
-- Properties of the state that an action keeps, one rule for each way to build an action.
pub mod Operations
pub mod Perform
pub mod Batch
use skald.Prelude.{
  ℕ, suc, ◌≡◌, refl, Bool, true, false, Option, none, some, if◌then◌else◌, Outcome, ok, err, panic,
}
use skald.Execution.State.{MutableState, Exec, ExecError, Transition}
use skald.Execution.Append.{
  pure, refuse, gets, lift, deref, found, refuse_when, modify, read_now, ◌>>=◌, continue,
}

-- `m` keeps `P`, whether it returns, fails or panics.
pub record Keeps {A : Type 0} (P : MutableState → Type 0) (m : Exec A) : Type 0 where
  pub at : (s : MutableState) → P s → P (m s).1

module _ {A : Type 0} {P : MutableState → Type 0} where
  pub Keeps-pure : (a : A) → Keeps P (pure a)
  unfolding ◌>>=◌
  Keeps-pure a = record { at = λ s h. h }

  pub Keeps-refuse : (t : Transition) → Keeps P (refuse {A = A} t)
  unfolding ◌>>=◌
  Keeps-refuse t = record { at = λ s h. h }

  pub Keeps-gets : (f : MutableState → A) → Keeps P (gets f)
  unfolding ◌>>=◌
  Keeps-gets f = record { at = λ s h. h }

  pub Keeps-lift : (r : Outcome ExecError A) → Keeps P (lift r)
  unfolding ◌>>=◌
  Keeps-lift r = record { at = λ s h. h }

  pub Keeps-deref : (o : Option A) → Keeps P (deref o)
  unfolding deref
  Keeps-deref none = record { at = λ s h. h }
  Keeps-deref (some a) = record { at = λ s h. h }

  pub Keeps-found : (t : Transition) (o : Option A) → Keeps P (found t o)
  unfolding found
  Keeps-found t none = record { at = λ s h. h }
  Keeps-found t (some a) = record { at = λ s h. h }

  pub Keeps-if : (b : Bool) (m n : Exec A) → Keeps P m → Keeps P n → Keeps P (if b then m else n)
  Keeps-if true m n km kn = km
  Keeps-if false m n km kn = kn

module _ {A B : Type 0} {P : MutableState → Type 0} where
  Keeps-continue :
      (r : Outcome ExecError A) (f : A → Exec B) (s : MutableState)
      → P s
      → ((a : A) → Keeps P (f a))
      → P (continue r f s).1
  Keeps-continue (ok a) f s h kf = (kf a).at s h
  Keeps-continue (err e) f s h kf = h
  Keeps-continue panic f s h kf = h

  pub Keeps-bind :
      (m : Exec A) (f : A → Exec B) → Keeps P m → ((a : A) → Keeps P (f a)) → Keeps P (m >>= f)
  unfolding ◌>>=◌
  Keeps-bind m f km kf = record { at = λ s h. Keeps-continue (m s).0 f (m s).1 (km.at s h) kf }

pub Keeps-refuse_when :
    {P : MutableState → Type 0} (b : Bool) (t : Transition) → Keeps P (refuse_when b t)
unfolding ◌>>=◌
Keeps-refuse_when true t = record { at = λ s h. h }
Keeps-refuse_when false t = record { at = λ s h. h }

pub ruleset keeps_rules = (
  Keeps-pure, Keeps-refuse, Keeps-gets, Keeps-lift, Keeps-deref, Keeps-found, Keeps-refuse_when,
  Keeps-if, Keeps-bind,
)
