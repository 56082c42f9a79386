-- ===== src/Client/Early.antt =====
-- The confirmation of the server, read before or after the sending loop has noted its request:
-- src/Client/Client.cpp, lines 141 to 150 and 215 to 219.
use chat_app.Common.{
  ℕ, ◌≤◌, ◌≡◌, true, false, ◌∷◌, some, arith, pos, is_negative, length, ok, monad,
}
use chat_app.Text.{Bytes}
use chat_app.Text.Decimal.{to_string}
use chat_app.Message.{ServerMessage, get_concatenated_msg, empty_msg}
use chat_app.Resources.{get_color}
use chat_app.Frame.{MessageFrame, clear_msg, overlay}
use chat_app.Frame.Reading.{construct-overlay}
use chat_app.Kernel.{Kernel, received}
use chat_app.State.{ClientData}
use chat_app.Server.Sending.{Sends}
use chat_app.Handshake.{confirmation_msg}
use chat_app.Frame.Reading.{IsSendable, some_bytes}
use chat_app.Client.{Process, os_call}
use chat_app.Client.Calls.{receive_msg, receive_msg_from_sv}
use chat_app.Client.Confirm.{confirmed, finalize_init-confirmation_msg}

module _ ⦃os : Kernel⦄ where
  -- The client once the bytes are in its frame.
  abbrev pub with_bytes : Bytes → MessageFrame → Process → Process
  with_bytes bytes f s = record s {
    frame = overlay bytes (clear_msg f);
    trace = received s.client.cl_socket ∷ s.trace;
  }

  comes_in :
      (bytes : Bytes) (f : MessageFrame) (s : Process)
      → s.frame ≡ clear_msg f
      → is_negative s.client.cl_socket ≡ false
      → os.recv_result s.trace s.client.cl_socket s.frame.msg_len ≡ some bytes
      → receive_msg s ≡ (ok (length bytes), with_bytes bytes f s)
  unfolding receive_msg monad os_call
  comes_in bytes f s cleared socket comes = ground (arith, cleared, socket, comes)

  -- The confirmation of the server, read into a cleared frame: a client that has noted its request
  -- is initialised and answers, and one that has sent it but has not noted it yet drops the message
  -- and stays as it was. The client has not been initialised before, the frame holds the message,
  -- whose colour is at most 14, the socket is open and sending succeeds.
  pub receive_msg_from_sv-confirmation_msg :
      {Q : Type 0} (msg : ServerMessage) (cl : ClientData Q) (k : ℕ) (f : MessageFrame)
      (s : Process)
      → IsSendable (confirmation_msg msg cl)
      → cl.color_id ≡ pos k
      → k ≤ 14
      → s.frame ≡ clear_msg f
      → s.client.init_done ≡ false
      → is_negative s.client.cl_socket ≡ false
      → Sends s.client.cl_socket
      → os.recv_result s.trace s.client.cl_socket s.frame.msg_len
        ≡ some (get_concatenated_msg (confirmation_msg msg cl))
      → let bytes = get_concatenated_msg (confirmation_msg msg cl) in
        (s.client.init_req ≡ true
          → (col : Bytes) × (get_color (pos k) ≡ ok col)
            × (receive_msg_from_sv s ≡ (
              ok tt,
              record (confirmed (with_bytes bytes f s) k (to_string cl.personal_id) col) {
                frame = clear_msg f;
              },
            )))
        × (s.client.init_req ≡ false → receive_msg_from_sv s ≡ (ok tt, with_bytes bytes f s))
  unfolding receive_msg_from_sv monad
  receive_msg_from_sv-confirmation_msg msg cl k f s good color small cleared new socket sends
        comes =
      let m = confirmation_msg msg cl in
      let bytes = get_concatenated_msg m in
      let s1 = with_bytes bytes f s in
      let got = comes_in bytes f s cleared socket comes in
      (
        λ noted.
            let (col, e, done) =
              finalize_init-confirmation_msg msg cl k s1 color small socket (λ t. sends t _) in
            (
              col,
              e,
              ground (
                arith,
                got,
                some_bytes m,
                noted,
                new,
                construct-overlay f empty_msg m good.clean good.plain good.short,
                done,
              ),
            ),
        λ unnoted. ground (arith, got, some_bytes m, unnoted),
      )
