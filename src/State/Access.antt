-- ===== src/State/Access.antt =====
-- Reading a client through a reference, in a proof that a predicate is kept.
use chat_app.Common.{◌≡◌, refl, ℕ, Option, none, some, M, monad, deref, ◌>>=◌}
use chat_app.Common.Keeps.{Keeps}
use chat_app.State.{ClientData, App, occupant, client_at}

-- To read a client and go on with it: where the slot is empty, nothing happens.
pub reading :
    {Q A : Type 0} (P : App Q → Type 0) (i : ℕ) (k : ClientData Q → M (App Q) A)
    → ((s : App Q) (c : ClientData Q) → occupant s.server.clients i ≡ some c → P s → P (k c s).1)
    → Keeps P (client_at i >>= k)
unfolding monad
reading P i k h = record { at = λ s p. from s p (occupant s.server.clients i) refl }
  where
    from :
        (s : App _)
        → P s
        → (o : Option (ClientData _)) → occupant s.server.clients i ≡ o
        → P ((deref o >>= k) s).1
    from s p none e = p
    from s p (some c) e = h s c e p
