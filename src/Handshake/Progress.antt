-- ===== src/Handshake/Progress.antt =====
-- The three steps that take a client of the server from the first request to the open chat.
use chat_app.Common.{ℕ, ◌<◌, ◌≡◌, refl, ap, true, false, ◌∷◌, some, arith, ℤ, length, ok, monad}
use chat_app.Message.{ServerMessage, get_concatenated_msg, reset_msg}
use chat_app.Resources.{
  Actions, get_action, initial_state, requested_init, sent_init_confirmation, init_done_state,
  queue_size,
}
use chat_app.Kernel.{Kernel, Trace, sent}
use chat_app.Queues.{StringQueue}
use chat_app.State.{ClientData, App, put_client, update_at, inc_state, get_state, occupant}
use chat_app.Slots.Lookup.{set-set}
use chat_app.Server.Sending.{IsSeated, IsSeated-put, Sends, send_msg-IsSeated}
use chat_app.Manager.Pushing.{IsAwake, pushed, waiting, worker_push-pushed}
use chat_app.Listener.{is_action}
use chat_app.Handshake.{process_client_state, hello_msg, connected_msg, confirmation_msg}

module _ {Q : Type 0} (i : ℕ) where
  -- The server with client `c` in slot `i`, after the calls `t`.
  abbrev pub with_client : ClientData Q → Trace → App Q → App Q
  with_client c t s = record s { server = put_client i c s.server; trace = t }

  pub with_client-with_client :
      (c c' : ClientData Q) (t t' : Trace) (s : App Q)
      → with_client c' t' (with_client c t s) ≡ with_client c' t' s
  with_client-with_client c c' t t' s =
      ap (λ xs. record s { server = record s.server { clients = xs }; trace = t' })
        (set-set s.server.clients i (some c) (some c'))

  updated :
      (f : ClientData Q → ClientData Q) (s : App Q) (c : ClientData Q)
      → occupant s.server.clients i ≡ some c
      → update_at i f s ≡ (ok tt, with_client (f c) s.trace s)
  unfolding monad
  updated f s c at = ground (arith, at)

  -- What the request of a client makes of it, and what the state becomes.
  abbrev pub requested : ServerMessage → ClientData Q → ClientData Q
  requested m c = record c { init_state = requested_init; name = m.name }

  abbrev pub in_state : ℤ → ClientData Q → ClientData Q
  in_state state c = record c { init_state = state }

module _ {Q : Type 0} ⦃queue : StringQueue Q⦄ ⦃os : Kernel⦄ (i : ℕ) where
  pub request_noted :
      (m : ServerMessage) (evfd : ℤ) (c : ClientData Q) (s : App Q)
      → m.action ≡ get_action Actions.init_req
      → IsSeated i c s
      → c.init_state ≡ initial_state
      → process_client_state 0 true m i evfd s
        ≡ (ok (reset_msg m), with_client i (requested i m c) s.trace s)
  unfolding process_client_state get_state inc_state monad
  request_noted m evfd c s asks v new =
      let stays : is_action m Actions.cl_disconnected ≡ false = rw asks refl in
      let is_request : is_action m Actions.init_req ≡ true = rw asks refl in
      let c1 = in_state i requested_init c in
      let s1 = with_client i c1 s.trace s in
      let v1 : IsSeated i c1 s1 = IsSeated-put i c c1 s s1 v refl refl refl in
      ground (
        arith,
        stays,
        is_request,
        v.here,
        new,
        v1.here,
        set-set s.server.clients i (some c1) (some (requested i m c)),
      )

  pub request_confirmed :
      (fuel : ℕ) (msg : ServerMessage) (evfd : ℤ) (c : ClientData Q) (s : App Q)
      → IsSeated i c s
      → c.init_state ≡ requested_init
      → Sends c.fd
      → process_client_state fuel false msg i evfd s ≡ (
        ok (confirmation_msg msg c),
        with_client i
            (in_state i sent_init_confirmation c)
            (sent c.fd (get_concatenated_msg (confirmation_msg msg c)) ∷ s.trace)
            s,
      )
  unfolding process_client_state get_state inc_state monad
  request_confirmed fuel msg evfd c s v asked sends =
      let c1 = in_state i sent_init_confirmation c in
      let s1 = with_client i c1 s.trace s in
      let v1 : IsSeated i c1 s1 = IsSeated-put i c c1 s s1 v refl refl refl in
      ground (
        arith,
        v.here,
        asked,
        v1.here,
        send_msg-IsSeated (get_concatenated_msg (confirmation_msg msg c)) i c1 s1 v1 sends,
      )

  pub handshake_finished :
      (m : ServerMessage) (evfd : ℤ) (c : ClientData Q) (s : App Q)
      → m.action ≡ get_action Actions.init_done
      → IsSeated i c s
      → c.init_state ≡ sent_init_confirmation
      → Sends c.fd
      → IsAwake evfd
      → length (waiting s) < queue_size
      → process_client_state 0 true m i evfd s ≡ (
        ok (reset_msg m),
        pushed evfd (get_concatenated_msg (connected_msg m c)) (
            with_client i
              (in_state i init_done_state c)
              (sent c.fd (get_concatenated_msg (hello_msg m c)) ∷ s.trace)
              s),
      )
  unfolding process_client_state get_state inc_state monad
  handshake_finished m evfd c s says v confirmed sends awake room =
      let stays : is_action m Actions.cl_disconnected ≡ false = rw says refl in
      let is_done : is_action m Actions.init_done ≡ true = rw says refl in
      let c1 = in_state i init_done_state c in
      let s1 = with_client i c1 s.trace s in
      let v1 : IsSeated i c1 s1 = IsSeated-put i c c1 s s1 v refl refl refl in
      let s2 = with_client i c1 (sent c.fd (get_concatenated_msg (hello_msg m c)) ∷ s.trace) s in
      ground (
        arith,
        stays,
        is_done,
        v.here,
        confirmed,
        v1.here,
        send_msg-IsSeated (get_concatenated_msg (hello_msg m c)) i c1 s1 v1 sends,
        worker_push-pushed (connected_msg m c) evfd s2 awake room,
      )
