-- ===== src/Common/Effects.antt =====
-- Exceptions of the program, and a monad of state with exceptions: what was written before a
-- `throw` stays written. `fault` is undefined behaviour, such as reading an empty optional.
use Prim.Native.String.{String}
use mathlib.Core.Bool.{Bool, true, false}
use mathlib.Core.Option.{Option, none, some}

-- The classes that `utils` declares, and those of the standard library. The text is `what()`.
pub data Exception : Type 0 where
  runtime_error : String → Exception
  server_full_exception : String → Exception
  queue_exception : String → Exception
  client_connection_exception : String → Exception
  thread_managing_exception : String → Exception
  invalid_argument : String → Exception
  out_of_range : String → Exception

pub data Outcome (A : Type 0) : Type 0 where
  ok : A → Outcome A
  throw : Exception → Outcome A
  fault : Outcome A

abbrev pub M : Type 0 → Type 0 → Type 0
M S A = S → Outcome A × S

module _ {S A : Type 0} where
  unfoldable pub pure : A → M S A
  pure a s = (ok a, s)

  unfoldable pub raise : Exception → M S A
  raise e s = (throw e, s)

  unfoldable pub undefined_behaviour : M S A
  undefined_behaviour s = (fault, s)

  unfoldable pub gets : (S → A) → M S A
  gets f s = (ok (f s), s)

  unfoldable pub lift : Outcome A → M S A
  lift r s = (r, s)

  -- `*opt`: dereferencing an empty optional is undefined.
  unfoldable pub deref : Option A → M S A
  deref none s = (fault, s)
  deref (some a) s = (ok a, s)

  -- `try { m } catch (const std::exception &e) { handler(e) }`
  unfoldable pub catch : M S A → (Exception → M S A) → M S A
  catch m handler s =
      let (r, s') = m s in
      elim r [ ok a ↦ (ok a, s') | throw e ↦ handler e s' | fault ↦ (fault, s') ]

infixl 5 ◌>>=◌ ◌>>◌
unfoldable pub ◌>>=◌ : {S A B : Type 0} → M S A → (A → M S B) → M S B
◌>>=◌ m f s =
    let (r, s') = m s in elim r [ ok a ↦ f a s' | throw e ↦ (throw e, s') | fault ↦ (fault, s') ]

abbrev pub ◌>>◌ : {S A B : Type 0} → M S A → M S B → M S B
m >> k = m >>= λ _. k

module _ {S : Type 0} where
  unfoldable pub modify : (S → S) → M S (Unit {0})
  modify f s = (ok tt, f s)

  unfoldable pub skip : M S (Unit {0})
  skip s = (ok tt, s)

  -- `if (c) throw e;`
  unfoldable pub raise_if : Bool → Exception → M S (Unit {0})
  raise_if true e s = (throw e, s)
  raise_if false e s = (ok tt, s)

  -- `if (c) m;`
  unfoldable pub when : Bool → M S (Unit {0}) → M S (Unit {0})
  when true m s = m s
  when false m s = (ok tt, s)

-- The end of a block whose object has the destructor `destroy`: the object is destroyed where the
-- block has ended, by an exception too, and not where it has only run out of fuel, which is `ok false`.
abbrev pub leave_scope : {S : Type 0} → M S (Unit {0}) → Outcome Bool → M S Bool
leave_scope destroy (ok true) = destroy >>= λ _. pure true
leave_scope destroy (ok false) = pure false
leave_scope destroy (throw e) = destroy >>= λ _. raise e
leave_scope destroy fault = undefined_behaviour

abbrev pub scoped : {S : Type 0} → M S (Unit {0}) → M S Bool → M S Bool
scoped destroy block s = let (r, s') = block s in leave_scope destroy r s'

-- To unfold this is to unfold every way to build an action.
unfoldable pub monad : Unit {0}
unfolding pure raise undefined_behaviour gets lift deref catch ◌>>=◌ modify skip raise_if when
monad = tt

-- Chains of fallible steps with no state.
abbrev pub bind : {A B : Type 0} → Outcome A → (A → Outcome B) → Outcome B
bind (ok a) f = f a
bind (throw e) f = throw e
bind fault f = fault
