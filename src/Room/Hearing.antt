-- ===== src/Room/Hearing.antt =====
-- What the room sees of a client whose socket is writable.
use chat_app.Common.{
  ℕ, zero, suc, ◌≤◌, ◌≡◌, ap, ◌∙◌, false, List, [], ◌∷◌, Option, none, some, arith, ℤ, int_eq_iff,
  set, length, fun_ext,
}
use chat_app.Text.{Bytes}
use chat_app.Message.{ServerMessage}
use chat_app.Resources.{init_done_state}
use chat_app.Kernel.{Kernel}
use chat_app.Queues.{StringQueue}
use chat_app.State.{ClientData, App, occupant}
use chat_app.Slots.Lookup.{IsUnique}
use chat_app.Server.Sending.{IsSeated, Sends}
use chat_app.Handshake.{process_client_state}
use chat_app.Handshake.Draining.{sent_all, process_client_state-drains}
use chat_app.Room.{hear, mailbox, room_of}
use chat_app.Room.Mailboxes.{others-IsAbsent, tail-IsUnique}

module _ {Q : Type 0} ⦃queue : StringQueue Q⦄ where
  -- A member of the table has the texts of its queue.
  mailbox-member :
      (xs : List (Option (ClientData Q))) (i : ℕ) (c : ClientData Q)
      → occupant xs i ≡ some c
      → IsUnique xs
      → mailbox xs c.personal_id ≡ some (queue.contents c.send_queue)
  mailbox-member [] i c here u = cc
  mailbox-member (none ∷ xs) zero c here u = cc
  mailbox-member (none ∷ xs) (suc i) c here u = mailbox-member xs i c here (tail-IsUnique none xs u)
  mailbox-member (some d ∷ xs) zero c here u =
      ground (arith, here, int_eq_iff d.personal_id c.personal_id)
  mailbox-member (some d ∷ xs) (suc i) c here u = ground (
    arith,
    mailbox-member xs i c here (tail-IsUnique (some d) xs u),
    others-IsAbsent d xs u i c here,
    int_eq_iff d.personal_id c.personal_id,
  )

  mailbox-emptied :
      (xs : List (Option (ClientData Q))) (i : ℕ) (c : ClientData Q) (q : Q) (k : ℤ)
      → occupant xs i ≡ some c
      → IsUnique xs
      → queue.contents q ≡ []
      → mailbox (set xs i (some (record c { send_queue = q }))) k
        ≡ hear c.personal_id (mailbox xs) k
  mailbox-emptied [] i c q k here u nothing = cc
  mailbox-emptied (none ∷ xs) zero c q k here u nothing = cc
  mailbox-emptied (none ∷ xs) (suc i) c q k here u nothing =
      mailbox-emptied xs i c q k here (tail-IsUnique none xs u) nothing
  mailbox-emptied (some d ∷ xs) zero c q k here u nothing =
      ground (arith, here, nothing, int_eq_iff d.personal_id k, int_eq_iff c.personal_id k)
  mailbox-emptied (some d ∷ xs) (suc i) c q k here u nothing = ground (
    arith,
    mailbox-emptied xs i c q k here (tail-IsUnique (some d) xs u) nothing,
    others-IsAbsent d xs u i c here,
    int_eq_iff d.personal_id k,
    int_eq_iff c.personal_id k,
    int_eq_iff d.personal_id c.personal_id,
  )

module _ {Q : Type 0} ⦃queue : StringQueue Q⦄ ⦃os : Kernel⦄ where
  -- A member of the open chat hears, when its socket is writable, exactly the texts that the room
  -- holds for it, in order, and then has none; for the others the room is as before. The
  -- identifiers are distinct, the client is connected and sending to it succeeds, and the rounds
  -- given are at least as many as the texts.
  pub process_client_state-hear :
      (fuel i : ℕ) (msg : ServerMessage) (evfd : ℤ) (c : ClientData Q) (texts : List Bytes)
      (s : App Q)
      → IsSeated i c s
      → IsUnique s.server.clients
      → Sends c.fd
      → c.init_state ≡ init_done_state
      → room_of s c.personal_id ≡ some texts
      → length texts ≤ fuel
      → let (r, s') = process_client_state fuel false msg i evfd s in
        (room_of s' ≡ hear c.personal_id (room_of s)) × (s'.trace ≡ sent_all c.fd texts s.trace)
  process_client_state-hear fuel i msg evfd c texts s v u sends open_chat holds enough =
      let member = mailbox-member s.server.clients i c v.here u in
      let same : queue.contents c.send_queue ≡ texts = cc in
      let (q, none_left, done) =
        process_client_state-drains i fuel msg evfd c s v sends open_chat (rw same enough) in
      (
        ap (λ r. room_of r.1) done
            ∙ fun_ext λ k. mailbox-emptied s.server.clients i c q k v.here u none_left,
        ap (λ r. r.1.trace) done ∙ ap (λ ts. sent_all c.fd ts s.trace) same,
      )
