-- ===== src/System/Opening.antt =====
-- The handshake between a client and the server: each side reads what the other has written.
use chat_app.Common.{
  ℕ, ◌<◌, ◌≤◌, ◌≡◌, refl, false, true, ◌>>◌, ◌∷◌, ◌++◌, arith, ℤ, pos, is_negative, length, ok, M,
  pure, monad, ◌>>=◌,
}
use chat_app.Text.{Bytes, codes}
use chat_app.Text.Decimal.{to_string}
use chat_app.Message.{
  ServerMessage, empty_msg, separations, get_concatenated_msg, construct_from_string, reset_msg,
}
use chat_app.Message.RoundTrip.{tokens}
use chat_app.Message.Numbers.{separations-to_string}
use chat_app.Resources.{initial_state, init_done_state, queue_size, get_color}
use chat_app.Kernel.{Kernel, Trace, sent}
use chat_app.Queues.{StringQueue}
use chat_app.State.{ClientData, App}
use chat_app.Server.Sending.{IsSeated, IsSeated-put, Sends}
use chat_app.Manager.Pushing.{IsAwake, pushed, waiting}
use chat_app.Listener.Repeating.{construct-clean}
use chat_app.Handshake.{process_client_state, hello_msg}
use chat_app.Handshake.Progress.{
  with_client, with_client-with_client, requested, in_state, request_noted, request_confirmed,
  handshake_finished,
}
use chat_app.Client.{Process, done_msg}
use chat_app.Client.Calls.{finalize_init}
use chat_app.Client.Confirm.{confirmed, finalize_init-confirmation_msg}
use chat_app.Client.Joining.{first_msg}

module _ {Q : Type 0} ⦃queue : StringQueue Q⦄ ⦃os : Kernel⦄ where
  -- The worker's calls for one client: the request is read, the socket becomes writable, and the
  -- last message of the handshake is read. The confirmation is returned.
  abbrev pub server_side : ℕ → ℕ → ℤ → ServerMessage → ServerMessage → M (App Q) ServerMessage
  server_side fuel i evfd request last = do
    msg ← process_client_state 0 true request i evfd
    confirmation ← process_client_state fuel false msg i evfd
    process_client_state 0 true last i evfd
    pure confirmation

  -- What the client reads.
  abbrev pub answer : Bytes → ClientData Q → ServerMessage
  answer name c = record empty_msg {
    action = codes "INIT_REQ";
    name = name;
    id = to_string c.personal_id;
    color_id = to_string c.color_id;
  }

  -- The greeting of the server, and the news that it gives to the listener.
  abbrev pub greeting : Bytes → ClientData Q → ServerMessage
  greeting name c = record empty_msg {
    action = codes "UNICAST_REPEATED";
    name = codes "SERVER";
    id = to_string c.personal_id;
    color_id = to_string c.color_id;
    msg_content = codes "Hello " ++ (name ++ codes ", now you can chat!");
  }

  abbrev pub news : Bytes → ClientData Q → ServerMessage
  news name c = record (greeting name c) {
    action = codes "INIT_DONE";
    msg_content = name ++ codes " Has Just Connected!";
  }

  -- The client in the open chat, under the name that it asked for.
  abbrev pub opened : Bytes → ClientData Q → ClientData Q
  opened name c = record c { init_state = init_done_state; name = name }

  abbrev pub opened_server : ℕ → ℤ → Bytes → ClientData Q → App Q → App Q
  opened_server i evfd name c s = pushed evfd (get_concatenated_msg (news name c)) (
      with_client i (opened name c)
        (sent c.fd (get_concatenated_msg (greeting name c))
          ∷ sent c.fd (get_concatenated_msg (answer name c))
          ∷ s.trace)
        s)

  server_opens :
      (name : Bytes) (fuel i : ℕ) (evfd : ℤ) (c : ClientData Q) (s : App Q)
      → IsSeated i c s
      → c.init_state ≡ initial_state
      → Sends c.fd
      → IsAwake evfd
      → length (waiting s) < queue_size
      → server_side fuel i evfd (first_msg name) done_msg s
        ≡ (ok (answer name c), opened_server i evfd name c s)
  unfolding monad reset_msg
  server_opens name fuel i evfd c s v new sends awake room =
      let c1 = requested i (first_msg name) c in
      let s1 = with_client i c1 s.trace s in
      let v1 : IsSeated i c1 s1 = IsSeated-put i c c1 s s1 v refl refl refl in
      let c2 = in_state i (pos 2) c1 in
      let t2 : Trace = sent c.fd (get_concatenated_msg (answer name c)) ∷ s.trace in
      let s2 = with_client i c2 t2 s1 in
      let v2 : IsSeated i c2 s2 = IsSeated-put i c1 c2 s1 s2 v1 refl refl refl in
      let c3 = opened name c in
      let t3 : Trace = sent c.fd (get_concatenated_msg (hello_msg done_msg c3)) ∷ t2 in
      ground (
        arith,
        request_noted i (first_msg name) evfd c s refl v new,
        request_confirmed i fuel (reset_msg (first_msg name)) evfd c1 s1 v1 refl sends,
        handshake_finished i done_msg evfd c2 s2 refl v2 refl sends awake room,
        with_client-with_client i c1 c2 s.trace t2 s,
        with_client-with_client i c2 c3 t2 t3 s1,
        with_client-with_client i c1 c3 s.trace t3 s,
      )

  tokens-answer :
      (name : Bytes) (c : ClientData Q) → separations name ≡ 0 → tokens (answer name c) ≡ 0
  unfolding reset_msg
  tokens-answer name c clean =
      omega (arith, separations-to_string c.personal_id, separations-to_string c.color_id)

  -- Client and server come to terms. The first message of the client, the confirmation that the
  -- server sends for it, and the last message that the client sends are each read back as they
  -- were written. The three calls of the worker send that confirmation and a greeting by name, put
  -- the news that somebody of that name has connected into the queue of the listener, and leave
  -- the client in the open chat under its name; reading the confirmation gives the client the
  -- identifier and the colour that the server has for it. The name has no split token, the client
  -- is new and its colour at most 14; the sockets and the event descriptor work, and the queue of
  -- the listener has room.
  pub server_side-opens :
      (name : Bytes) (fuel i k : ℕ) (evfd : ℤ) (c : ClientData Q) (s : App Q) (p : Process)
      → separations name ≡ 0
      → IsSeated i c s
      → c.init_state ≡ initial_state
      → c.color_id ≡ pos k
      → k ≤ 14
      → Sends c.fd
      → IsAwake evfd
      → length (waiting s) < queue_size
      → is_negative p.client.cl_socket ≡ false
      → Sends p.client.cl_socket
      → (construct_from_string empty_msg (get_concatenated_msg (first_msg name))
          ≡ ok (first_msg name))
        × (construct_from_string empty_msg (get_concatenated_msg (answer name c))
            ≡ ok (answer name c))
        × (construct_from_string empty_msg (get_concatenated_msg done_msg) ≡ ok done_msg)
        × (server_side fuel i evfd (first_msg name) done_msg s
            ≡ (ok (answer name c), opened_server i evfd name c s))
        × ((col : Bytes) × (get_color (pos k) ≡ ok col)
            × (finalize_init (answer name c) p
                ≡ (ok tt, confirmed p k (to_string c.personal_id) col)))
  unfolding reset_msg
  server_side-opens name fuel i k evfd c s p clean v new color small sends awake room socket
        answers =
      (
        construct-clean (first_msg name) (omega (arith, separations-to_string (pos 7))),
        construct-clean (answer name c) (tokens-answer name c clean),
        construct-clean done_msg (omega arith),
        server_opens name fuel i evfd c s v new sends awake room,
        finalize_init-confirmation_msg (reset_msg (first_msg name)) (record c { name = name }) k p
            color small socket (λ t. answers t (get_concatenated_msg done_msg)),
      )
