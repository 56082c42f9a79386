-- ===== src/Common/Keeps.antt =====
-- Invariants of actions: one rule for each way to build an action. A kept predicate holds of the
-- state afterwards however the action ends.
use mathlib.Core.Bool.{Bool, true, false}
use mathlib.Core.Path.{◌≡◌, refl}
use mathlib.Core.Option.{Option, none, some}
use native.Mathlib.Omega.{arith}
use chat_app.Common.Tests.{if◌then◌else◌}
use chat_app.Common.Effects.{
  M, Outcome, ok, throw, fault, Exception, pure, raise, undefined_behaviour, gets, lift, deref,
  catch, ◌>>=◌, ◌>>◌, modify, skip, raise_if, when, monad,
}

pub record Keeps {S A : Type 0} (P : S → Type 0) (m : M S A) : Type 0 where
  pub at : (s : S) → P s → P (m s).1

module _ {S A : Type 0} {P : S → Type 0} where
  pub Keeps-pure : (a : A) → Keeps P (pure a)
  unfolding monad
  Keeps-pure a = record { at = λ s h. h }

  pub Keeps-raise : (e : Exception) → Keeps P (raise {A = A} e)
  unfolding monad
  Keeps-raise e = record { at = λ s h. h }

  pub Keeps-undefined : Keeps P (undefined_behaviour {A = A})
  unfolding monad
  Keeps-undefined = record { at = λ s h. h }

  pub Keeps-gets : (f : S → A) → Keeps P (gets f)
  unfolding monad
  Keeps-gets f = record { at = λ s h. h }

  pub Keeps-lift : (r : Outcome A) → Keeps P (lift r)
  unfolding monad
  Keeps-lift r = record { at = λ s h. h }

  pub Keeps-deref : (o : Option A) → Keeps P (deref o)
  unfolding monad
  Keeps-deref none = record { at = λ s h. h }
  Keeps-deref (some a) = record { at = λ s h. h }

  pub Keeps-if :
      (test : Bool) (first second : M S A)
      → (test ≡ true → Keeps P first)
      → (test ≡ false → Keeps P second)
      → Keeps P (if test then first else second)
  Keeps-if true first _ taken _ = taken refl
  Keeps-if false _ second _ taken = taken refl

  pub handled :
      (handler : Exception → M S A)
      → ((e : Exception) → Keeps P (handler e))
      → (r : Outcome A × S) → P r.1
      → P (catch (λ _. r) handler r.1).1
  unfolding monad
  handled handler kh (ok a, s) h = h
  handled handler kh (throw e, s) h = (kh e).at s h
  handled handler kh (fault, s) h = h

  pub Keeps-catch :
      (m : M S A) (handler : Exception → M S A)
      → Keeps P m
      → ((e : Exception) → Keeps P (handler e))
      → Keeps P (catch m handler)
  unfolding monad
  Keeps-catch m handler km kh = record { at = λ s h. handled handler kh (m s) (km.at s h) }

module _ {S : Type 0} {P : S → Type 0} where
  pub Keeps-skip : Keeps P skip
  unfolding monad
  Keeps-skip = record { at = λ s h. h }

  pub Keeps-raise_if : (b : Bool) (e : Exception) → Keeps P (raise_if b e)
  unfolding monad
  Keeps-raise_if true e = record { at = λ s h. h }
  Keeps-raise_if false e = record { at = λ s h. h }

  pub Keeps-when : (b : Bool) (m : M S (Unit {0})) → (b ≡ true → Keeps P m) → Keeps P (when b m)
  unfolding monad
  Keeps-when true m km = record { at = (km refl).at }
  Keeps-when false m km = record { at = λ s h. h }

  pub Keeps-modify : (f : S → S) → ((s : S) → P s → P (f s)) → Keeps P (modify f)
  unfolding monad
  Keeps-modify f kf = record { at = kf }

module _ {S A B : Type 0} {P : S → Type 0} where
  pub continued :
      (f : A → M S B)
      → ((a : A) → Keeps P (f a))
      → (r : Outcome A × S) → P r.1
      → P (◌>>=◌ (λ _. r) f r.1).1
  unfolding monad
  continued f kf (ok a, s) h = (kf a).at s h
  continued f kf (throw e, s) h = h
  continued f kf (fault, s) h = h

  pub Keeps-bind :
      (m : M S A) (f : A → M S B) → Keeps P m → ((a : A) → Keeps P (f a)) → Keeps P (m >>= f)
  unfolding monad
  Keeps-bind m f km kf = record { at = λ s h. continued f kf (m s) (km.at s h) }

  -- What is read belongs to the state in which the rest runs.
  pub Keeps-read :
      (f : S → A) (k : A → M S B) → ((s : S) → P s → P (k (f s) s).1) → Keeps P (gets f >>= k)
  unfolding monad
  Keeps-read f k kk = record { at = kk }

pub ruleset keeps_rules = (
  Keeps-pure, Keeps-raise, Keeps-undefined, Keeps-gets, Keeps-lift, Keeps-deref, Keeps-if,
  Keeps-skip, Keeps-raise_if, Keeps-when, Keeps-bind,
)

-- What follows an action that succeeds.
pub bind_ok :
    {S A B : Type 0} (m : M S A) (k : M S B) (s s' : S) {a : A}
    → m s ≡ (ok a, s')
    → (m >> k) s ≡ k s'
unfolding monad
bind_ok m k s s' e = ground (arith, e)
