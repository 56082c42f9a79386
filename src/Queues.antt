-- ===== src/Queues.antt =====
-- The concept Q_ThrS_Str of include/resources.h: a thread-safe queue of strings. The program
-- instantiates it with the AtomicQueue2 of a third party, so it is a parameter here; each call is
-- one atomic step.
use chat_app.Common.{
  ◌≤◌, ◌<◌, ◌≡◌, Bool, true, false, List, [], ◌∷◌, ◌++◌, Option, none, some, length,
}
use chat_app.Text.{Bytes}
use chat_app.Resources.{queue_size}

-- `contents` is what a queue holds, oldest first. A push fails exactly when the queue is full, and
-- a pop takes the oldest text.
pub record StringQueue (Q : Type 0) : Type 0 where
  pub new_queue : Q
  pub try_push : Q → Bytes → Bool × Q
  pub try_pop : Q → Option (Bytes × Q)
  pub contents : Q → List Bytes
  pub contents_new : contents new_queue ≡ []
  pub push_room :
      (q : Q) (s : Bytes)
      → length (contents q) < queue_size
      → ((try_push q s).0 ≡ true) × (contents (try_push q s).1 ≡ contents q ++ s ∷ [])
  pub push_full : (q : Q) (s : Bytes) → queue_size ≤ length (contents q) → try_push q s ≡ (false, q)
  pub pop_empty : (q : Q) → contents q ≡ [] → try_pop q ≡ none
  pub pop_oldest :
      (q : Q) (s : Bytes) (rest : List Bytes)
      → contents q ≡ s ∷ rest
      → (q' : Q) × (try_pop q ≡ some (s, q')) × (contents q' ≡ rest)
