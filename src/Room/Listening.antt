-- ===== src/Room/Listening.antt =====
-- What the room sees of the listener at its queue.
use chat_app.Common.{
  ◌≡◌, refl, sym, ap, ◌∙◌, subst, inl, inr, Bool, true, false, List, [], ◌∷◌, ◌++◌, Option, none,
  some, arith, Bool-cases, ℤ, int_eq, append_assoc, append-nil, if◌then◌else◌, length, ltb,
}
use chat_app.Text.{Bytes}
use chat_app.Kernel.{Kernel}
use chat_app.Resources.{queue_size}
use chat_app.Queues.{StringQueue}
use chat_app.State.{App}
use chat_app.Server.Identifiers.{IsFresh}
use chat_app.Listener.{listener_process_worker_to_listener_q}
use chat_app.System.Closed.{IsListened}
use chat_app.System.Fresh.{fresh_closed}
use chat_app.System.Listening.{process_queue-Keeps}
use chat_app.Room.{Room, leave, room_of}
use chat_app.Room.Mailboxes.{mailbox-rewritten}
use chat_app.Room.Refine.{disconnect_client-leave}

-- Who was no member is none; a member has left, or has what it had, with more behind it.
abbrev pub Grown : Option (List Bytes) → Option (List Bytes) → Type 0
Grown none o = Unit {0}
Grown (some texts) none = ⊥
Grown (some texts) (some old) = (more : List Bytes) × (old ++ more ≡ texts)

Grown-refl : (o : Option (List Bytes)) → Grown o o
Grown-refl none = tt
Grown-refl (some texts) = ([], append-nil texts)

Grown-trans : (a b c : Option (List Bytes)) → Grown a b → Grown b c → Grown a c
Grown-trans none b c h k = tt
Grown-trans (some x) none c h k = absurd h
Grown-trans (some x) (some y) none h k = k
Grown-trans (some x) (some y) (some z) (more, e) (before, e') =
    (before ++ more, sym (append_assoc z before more) ∙ (ap (λ ts. ts ++ more) e' ∙ e))

Grown-leave : (id : ℤ) (r : Room) (k : ℤ) → Grown (leave id r k) (r k)
Grown-leave id r k = from (int_eq id k)
  where
    from : (b : Bool) → Grown (if b then none else r k) (r k)
    from true = tt
    from false = Grown-refl (r k)

module _ {Q : Type 0} ⦃queue : StringQueue Q⦄ where
  -- A push that fails leaves the queue as it was.
  pushed-Grown :
      (q : Q) (text : Bytes)
      → Grown (some (queue.contents (queue.try_push q text).1)) (some (queue.contents q))
  pushed-Grown q text = elim (Bool-cases (ltb (length (queue.contents q)) queue_size)) [
    | inl room ↦ (text ∷ [], sym (queue.push_room q text (ground arith)).1)
    | inr full ↦ (
      [],
      append-nil (queue.contents q)
          ∙ sym (ap (λ r. queue.contents r.1) (queue.push_full q text (ground arith))),
    )
  ]

  -- The identifiers are distinct, and the room has grown at most.
  abbrev pub IsHeardBy : Room → App Q → Type 0
  IsHeardBy r s = IsFresh s × ((k : ℤ) → Grown (room_of s k) (r k))

  instance pub heard_listened : {r : Room} → IsListened {Q = Q} (IsHeardBy r)
  heard_listened {r} = record {
    called = λ t s (v, h). (fresh_closed.called t s v, h);
    managed = λ m s (v, h). (fresh_closed.managed m s v, h);
    pushed = λ i c text s at (v, h).
        let c' = record c { send_queue = (queue.try_push c.send_queue text).1 } in
        (
          fresh_closed.rewritten i c c' s at refl v,
          λ k.
              Grown-trans _ (room_of s k) (r k)
                (mailbox-rewritten Grown Grown-refl s.server.clients i c c' k at refl
                  (pushed-Grown c.send_queue text))
                (h k),
        );
    finished = λ s (v, h). (fresh_closed.finished s v, h);
    disconnected = λ id s (v, h). (
      fresh_closed.disconnected id s v,
      λ k.
          Grown-trans _ (room_of s k) (r k)
            (subst (λ (r' : Room). Grown (r' k) (room_of s k))
              (sym (disconnect_client-leave id s v)) (Grown-leave id (room_of s) k))
            (h k),
    );
  }

module _ {Q : Type 0} ⦃queue : StringQueue Q⦄ ⦃os : Kernel⦄ where
  -- Whatever the listener finds in its queue, and however the call ends: nobody enters the room, and
  -- every member that has not left has the texts that waited for it before, in their order, with at
  -- most new ones behind them. The identifiers are distinct and handed out by the counter.
  pub listener_process-Grown :
      (evfd : ℤ) (s : App Q)
      → IsFresh s
      → (k : ℤ) → Grown (room_of (listener_process_worker_to_listener_q evfd s).1 k) (room_of s k)
  listener_process-Grown evfd s v k =
      ((process_queue-Keeps {P = IsHeardBy (room_of s)} evfd).at s
          (v, λ k'. Grown-refl (room_of s k'))).1
        k
