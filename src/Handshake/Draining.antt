-- ===== src/Handshake/Draining.antt =====
-- The loop that sends what waits in the queue of a client.
use chat_app.Common.{
  ℤ, ℕ, zero, suc, ◌≤◌, ◌≡◌, refl, ap, sym, ◌∙◌, List, [], ◌∷◌, some, arith, false, length, ok,
  monad,
}
use chat_app.Text.{Bytes}
use chat_app.Message.{ServerMessage}
use chat_app.Resources.{init_done_state}
use chat_app.Kernel.{Kernel, Trace, sent}
use chat_app.Queues.{StringQueue}
use chat_app.State.{ClientData, App, put_client, get_state}
use chat_app.Slots.Lookup.{set-set, set_self}
use chat_app.Server.Sending.{IsSeated, IsSeated-put, Sends, send_msg-IsSeated}
use chat_app.Handshake.{drain, process_client_state}

-- The calls that send these texts, the first one first.
abbrev pub sent_all : ℤ → List Bytes → Trace → Trace
sent_all fd [] t = t
sent_all fd (text ∷ texts) t = sent_all fd texts (sent fd text ∷ t)

module _ {Q : Type 0} ⦃queue : StringQueue Q⦄ ⦃os : Kernel⦄ (i : ℕ) where
  -- The server once the queue of client `c` is `q` and `t` are the calls made.
  abbrev pub with_queue : App Q → ClientData Q → Q → Trace → App Q
  with_queue s c q t = record s {
    server = put_client i (record c { send_queue = q }) s.server;
    trace = t;
  }

  nothing_left :
      (fuel : ℕ) (c : ClientData Q) (s : App Q)
      → IsSeated i c s
      → queue.contents c.send_queue ≡ []
      → drain fuel i s ≡ (ok tt, s)
  unfolding monad
  nothing_left zero c s v none_left = refl
  nothing_left (suc fuel) c s v none_left =
      ground (arith, v.here, queue.pop_empty c.send_queue none_left)

  -- One round: the oldest text is taken from the queue and sent.
  one_sent :
      (fuel : ℕ) (text : Bytes) (c : ClientData Q) (q : Q) (s : App Q)
      → IsSeated i c s
      → Sends c.fd
      → queue.try_pop c.send_queue ≡ some (text, q)
      → drain (suc fuel) i s ≡ drain fuel i (with_queue s c q (sent c.fd text ∷ s.trace))
  unfolding monad
  one_sent fuel text c q s v sends popped =
      let s1 = with_queue s c q s.trace in
      let v1 : IsSeated i (record c { send_queue = q }) s1 =
        IsSeated-put i c (record c { send_queue = q }) s s1 v refl refl refl in
      ground
        (arith, v.here, popped, send_msg-IsSeated text i (record c { send_queue = q }) s1 v1 sends)

  emptied :
      (texts : List Bytes) (fuel : ℕ) (c : ClientData Q) (s : App Q)
      → length texts ≤ fuel
      → IsSeated i c s
      → Sends c.fd
      → queue.contents c.send_queue ≡ texts
      → (q : Q) × (queue.contents q ≡ [])
        × (drain fuel i s ≡ (ok tt, with_queue s c q (sent_all c.fd texts s.trace)))
  emptied [] fuel c s enough v sends holds = (
    c.send_queue,
    holds,
    nothing_left fuel c s v holds
        ∙ ap (λ xs. (ok tt, record s { server = record s.server { clients = xs } }))
            (sym (set_self s.server.clients i (some c) v.here)),
  )
  emptied (text ∷ texts) zero c s enough v sends holds = absurd (omega arith)
  emptied (text ∷ texts) (suc fuel) c s enough v sends holds =
      let (q, popped, rest) = queue.pop_oldest c.send_queue text texts holds in
      let c1 = record c { send_queue = q } in
      let s1 = with_queue s c q (sent c.fd text ∷ s.trace) in
      let v1 : IsSeated i c1 s1 = IsSeated-put i c c1 s s1 v refl refl refl in
      let (q', none_left, done) = emptied texts fuel c1 s1 (omega arith) v1 sends rest in
      let overwritten =
        set-set s.server.clients i (some c1) (some (record c { send_queue = q' })) in
      (
        q',
        none_left,
        one_sent fuel text c q s v sends popped
            ∙ (done
                ∙ ap
                    (λ xs. (
                      ok tt,
                      record s {
                        server = record s.server { clients = xs };
                        trace = sent_all c.fd texts (sent c.fd text ∷ s.trace);
                      },
                    ))
                    overwritten),
      )

  -- A writable socket of a client in the open chat empties its queue: every text that waits is
  -- sent, the oldest first, each once, and nothing else changes. The rounds given are at least as
  -- many as the texts that wait; the client is connected, and sending to it succeeds.
  pub process_client_state-drains :
      (fuel : ℕ) (msg : ServerMessage) (evfd : ℤ) (c : ClientData Q) (s : App Q)
      → IsSeated i c s
      → Sends c.fd
      → c.init_state ≡ init_done_state
      → length (queue.contents c.send_queue) ≤ fuel
      → (q : Q) × (queue.contents q ≡ [])
        × (process_client_state fuel false msg i evfd s
            ≡ (ok msg, with_queue s c q (sent_all c.fd (queue.contents c.send_queue) s.trace)))
  unfolding process_client_state get_state monad
  process_client_state-drains fuel msg evfd c s v sends open_chat enough =
      let (q, none_left, done) =
        emptied (queue.contents c.send_queue) fuel c s enough v sends refl in
      (q, none_left, ground (arith, v.here, open_chat, done))
