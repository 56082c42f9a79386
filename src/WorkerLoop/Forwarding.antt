-- ===== src/WorkerLoop/Forwarding.antt =====
-- A chat line on its way from the socket of a client to the queue of the listener.
use chat_app.Common.{ℕ, ◌<◌, ◌≡◌, refl, true, false, ◌∷◌, some, arith, ℤ, length, ok, monad}
use chat_app.Message.{ServerMessage, get_concatenated_msg, reset_msg}
use chat_app.Resources.{Actions, get_action, init_done_state, queue_size}
use chat_app.Frame.{MessageFrame, clear_msg}
use chat_app.Frame.Reading.{IsSendable, some_bytes, construct-overlay}
use chat_app.Kernel.{Kernel, received}
use chat_app.Queues.{StringQueue}
use chat_app.State.{ClientData, App, get_state}
use chat_app.Server.Sending.{IsSeated, IsSeated-same, receive_msg-IsSeated}
use chat_app.Manager.Pushing.{IsAwake, pushed, waiting, worker_push-pushed}
use chat_app.Listener.{is_action}
use chat_app.Handshake.{process_client_state}
use chat_app.WorkerLoop.{read_client}

abbrev pub IsChat : ServerMessage → Type 0
IsChat m = m.action ≡ get_action Actions.unicast_repeated

pub chat_action :
    (m : ServerMessage)
    → IsChat m
    → (is_action m Actions.cl_disconnected ≡ false) × (is_action m Actions.unicast_repeated ≡ true)
chat_action m chat = rw chat (refl, refl)

module _ {Q : Type 0} ⦃queue : StringQueue Q⦄ ⦃os : Kernel⦄ where
  process_client_state-chat :
      (m : ServerMessage) (i : ℕ) (evfd : ℤ) (c : ClientData Q) (s : App Q)
      → IsChat m
      → IsSeated i c s
      → c.init_state ≡ init_done_state
      → IsAwake evfd
      → length (waiting s) < queue_size
      → process_client_state 0 true m i evfd s
        ≡ (ok (reset_msg m), pushed evfd (get_concatenated_msg m) s)
  unfolding process_client_state get_state monad
  process_client_state-chat m i evfd c s chat v open_chat awake room =
      let (stays, is_chat) = chat_action m chat in
      ground (arith, stays, is_chat, v.here, open_chat, worker_push-pushed m evfd s awake room)

  -- A worker that reads a chat line from a client in the open chat puts exactly the bytes it read
  -- behind what waits for the listener, signals the listener, and clears the frame; the table of
  -- clients is untouched. The frame was cleared before; the client is connected, the line is one
  -- that the program can carry, the listener can be signalled, and its queue has room.
  pub read_client-forwards :
      (m m0 : ServerMessage) (f : MessageFrame) (i : ℕ) (evfd : ℤ) (c : ClientData Q) (s : App Q)
      → IsSendable m
      → IsChat m
      → IsSeated i c s
      → c.init_state ≡ init_done_state
      → os.recv_result s.trace c.fd f.msg_len ≡ some (get_concatenated_msg m)
      → IsAwake evfd
      → length (waiting s) < queue_size
      → read_client (c.fd, c.personal_id) (some i) (record { frame = clear_msg f; msg = m0 }) evfd s
        ≡ (
          ok (true, record { frame = clear_msg f; msg = reset_msg m }),
          pushed evfd (get_concatenated_msg m) (record s { trace = received c.fd ∷ s.trace }),
        )
  unfolding monad
  read_client-forwards m m0 f i evfd c s good chat v open_chat comes awake room =
      let s1 = record s { trace = received c.fd ∷ s.trace } in
      ground (
        arith,
        receive_msg-IsSeated (clear_msg f) (get_concatenated_msg m) i c s v comes,
        some_bytes m,
        construct-overlay f m0 m good.clean good.plain good.short,
        process_client_state-chat m i evfd c s1 chat (IsSeated-same i c s s1 refl v) open_chat awake
            room,
      )
