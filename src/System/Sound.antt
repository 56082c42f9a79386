-- ===== src/System/Sound.antt =====
-- The validity of the table is a predicate of the interface.
use chat_app.Common.{
  ℕ, zero, suc, ◌≡◌, refl, ap, List, [], ◌∷◌, Option, none, some, arith, length-set, set, ℤ, Bool,
}
use chat_app.Common.Keeps.{Keeps}
use chat_app.Kernel.{Kernel}
use chat_app.Epoll.{EpollManager}
use chat_app.Queues.{StringQueue}
use chat_app.State.{ClientData, Server, App, occupant, occupied, put_client}
use chat_app.Server.{accept_client}
use chat_app.Server.Invariant.{IsValid, accept_client-IsValid, disconnect_client-IsValid}
use chat_app.Listener.{listener_rounds}
use chat_app.System.Closed.{IsClosed, served_closed, listened_closed}
use chat_app.System.Rounds.{listener_rounds-Keeps}

occupied-set :
    {A : Type 0} (xs : List (Option A)) (i : ℕ) (a : A) {b : A}
    → occupant xs i ≡ some b
    → occupied (set xs i (some a)) ≡ occupied xs
occupied-set [] i a e = refl
occupied-set (none ∷ xs) zero a e = cc
occupied-set (some b ∷ xs) zero a e = refl
occupied-set (none ∷ xs) (suc i) a e = occupied-set xs i a e
occupied-set (some b ∷ xs) (suc i) a e = ap (λ (n : ℕ). suc n) (occupied-set xs i a e)

module _ {Q : Type 0} where
  abbrev pub IsSound : App Q → Type 0
  IsSound s = IsValid s.server

  put_client-IsValid :
      (i : ℕ) (c c' : ClientData Q) (sv : Server Q)
      → occupant sv.clients i ≡ some c
      → IsValid sv
      → IsValid (put_client i c' sv)
  put_client-IsValid i c c' sv at v =
      ground (arith, length-set sv.clients i (some c'), occupied-set sv.clients i c' {b = c} at)

  instance pub sound_closed : IsClosed {Q = Q} IsSound
  sound_closed = record {
    called = λ t s v. v;
    managed = λ m s v. v;
    rewritten = λ i c c' s at same v. put_client-IsValid i c c' s.server at v;
    finished = λ s v. record { size = v.size; counted = v.counted };
    disconnected = disconnect_client-IsValid;
  }

module _ {Q : Type 0} ⦃queue : StringQueue Q⦄ ⦃os : Kernel⦄ where
  pub accept-IsSound : (b : Bool) → Keeps {S = App Q} IsSound (accept_client b)
  accept-IsSound b = record { at = accept_client-IsValid b }

  -- Whatever the listener does in any number of rounds of its loop, also where it ends by an
  -- exception, the table keeps its size and its counter counts the connected clients.
  pub listener_rounds-IsSound :
      (fuel : ℕ) (em : EpollManager) (sv_socket evfd : ℤ)
      → Keeps {S = App Q} IsSound (listener_rounds fuel em sv_socket evfd)
  listener_rounds-IsSound = listener_rounds-Keeps accept-IsSound
