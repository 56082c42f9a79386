-- ===== src/Room/Working.antt =====
-- What the room sees of a worker.
use chat_app.Common.{
  ℕ, ◌≡◌, refl, sym, ap, ◌∙◌, inl, inr, List, [], ◌∷◌, ◌++◌, Option, none, some, ℤ, append_assoc,
}
use chat_app.Text.{Bytes}
use chat_app.Kernel.{Kernel}
use chat_app.Epoll.{EpollManager}
use chat_app.Queues.{StringQueue}
use chat_app.State.{App}
use chat_app.WorkerLoop.{Served, Locals, worker_round}
use chat_app.System.Closed.{IsTaken, IsServed}
use chat_app.System.Rounds.{worker_round-Keeps}
use chat_app.Room.{Room, room_of}
use chat_app.Room.Mailboxes.{mailbox-rewritten}

-- What is left of a list when texts are taken from its front.
abbrev pub IsRest : List Bytes → List Bytes → Type 0
IsRest left texts = (taken : List Bytes) × (taken ++ left ≡ texts)

-- The same for what waits for somebody, who is a member still or is none still.
abbrev pub Remains : Option (List Bytes) → Option (List Bytes) → Type 0
Remains none none = Unit {0}
Remains none (some texts) = ⊥
Remains (some left) none = ⊥
Remains (some left) (some texts) = IsRest left texts

Remains-refl : (o : Option (List Bytes)) → Remains o o
Remains-refl none = tt
Remains-refl (some texts) = ([], refl)

Remains-trans : (a b c : Option (List Bytes)) → Remains a b → Remains b c → Remains a c
Remains-trans none none none h k = tt
Remains-trans none none (some z) h k = k
Remains-trans none (some y) c h k = absurd h
Remains-trans (some x) none c h k = absurd h
Remains-trans (some x) (some y) none h k = k
Remains-trans (some x) (some y) (some z) (taken, e) (before, e') =
    (before ++ taken, append_assoc before taken x ∙ (ap (λ ts. before ++ ts) e ∙ e'))

module _ {Q : Type 0} ⦃queue : StringQueue Q⦄ where
  taken-IsRest : (q' q : Q) → IsTaken q' q → IsRest (queue.contents q') (queue.contents q)
  taken-IsRest q' q (inl same) = ([], ap queue.contents same)
  taken-IsRest q' q (inr (text, popped)) = from (queue.contents q) refl
    where
      from :
          (texts : List Bytes)
          → queue.contents q ≡ texts
          → IsRest (queue.contents q') (queue.contents q)
      from [] e = absurd (cc (queue.pop_empty q e, popped))
      from (s ∷ rest) e =
          let (q'', done, left) = queue.pop_oldest q s rest e in
          let same : q' ≡ q'' = cc in
          (s ∷ [], ap (λ ts. s ∷ ts) (ap queue.contents same ∙ left) ∙ sym e)

  -- At most the oldest texts are gone.
  abbrev pub IsHeard : Room → App Q → Type 0
  IsHeard r s = (k : ℤ) → Remains (room_of s k) (r k)

  instance pub heard_served : {r : Room} → IsServed {Q = Q} (IsHeard r)
  heard_served {r} = record {
    called = λ t s h. h;
    managed = λ m s h. h;
    rewritten = λ i c c' s at same taken h k.
        Remains-trans _ (room_of s k) (r k)
          (mailbox-rewritten Remains Remains-refl s.server.clients i c c' k at same
            (taken-IsRest c'.send_queue c.send_queue taken))
          (h k);
  }

module _ {Q : Type 0} ⦃queue : StringQueue Q⦄ ⦃os : Kernel⦄ where
  -- Whatever a worker does in a round, and however the round ends: nobody enters or leaves the room,
  -- and of the texts that wait for each member at most the oldest are gone; none is added, changed,
  -- or taken before one that is older.
  pub worker_round-Remains :
      (fuel : ℕ) (em : EpollManager) (ret : ℤ) (personal_index : ℕ) (personal_evfd evfd : ℤ)
      (clients : List Served) (l : Locals) (s : App Q) (k : ℤ)
      → Remains
          (room_of (worker_round fuel em ret personal_index personal_evfd evfd clients l s).1 k)
          (room_of s k)
  worker_round-Remains fuel em ret j personal_evfd evfd clients l s k =
      (worker_round-Keeps {P = IsHeard (room_of s)} fuel em ret j personal_evfd evfd clients l).at s
        (λ k'. Remains-refl (room_of s k')) k
