-- ===== src/Client/Confirm.antt =====
-- The end of the handshake: the confirmation that the server writes, read by the client.
use chat_app.Common.{ℕ, ◌≤◌, ◌≡◌, true, false, ◌∷◌, some, arith, pos, is_negative, ok, monad}
use chat_app.Text.{Bytes}
use chat_app.Text.Decimal.{to_string, stoi}
use chat_app.Text.Decimal.RoundTrip.{stoi-to_string}
use chat_app.Message.{ServerMessage, get_concatenated_msg}
use chat_app.Resources.{get_color, color_end, endl}
use chat_app.Resources.Printing.{get_color_total}
use chat_app.Kernel.{Kernel, Trace, sent, printed}
use chat_app.State.{ClientData}
use chat_app.Handshake.{confirmation_msg}
use chat_app.Client.{Process, os_call, done_msg}
use chat_app.Client.Calls.{finalize_init, update_color, send_msg}

module _ ⦃os : Kernel⦄ where
  -- The process once it is initialised: the colour `k` is set and shown, and INIT_DONE was sent.
  abbrev pub confirmed : Process → ℕ → Bytes → Bytes → Process
  confirmed s k id col = record s {
    client = record s.client { color_id = pos k; id = id; init_done = true };
    trace =
        sent s.client.cl_socket (get_concatenated_msg done_msg)
        ∷ printed (endl col)
        ∷ printed (endl color_end)
        ∷ s.trace;
  }

  -- A client that gets the confirmation which the server writes for a client with colour `k`, at
  -- most 14, takes over the identifier and the colour, is initialised, and answers INIT_DONE. Its
  -- socket is open, and sending the answer succeeds.
  pub finalize_init-confirmation_msg :
      {Q : Type 0} (msg : ServerMessage) (cl : ClientData Q) (k : ℕ) (s : Process)
      → cl.color_id ≡ pos k
      → k ≤ 14
      → is_negative s.client.cl_socket ≡ false
      → ((t : Trace)
          → (n : ℕ) × (os.send_result t s.client.cl_socket (get_concatenated_msg done_msg)
              ≡ some n))
      → (col : Bytes) × (get_color (pos k) ≡ ok col)
        × (finalize_init (confirmation_msg msg cl) s
            ≡ (ok tt, confirmed s k (to_string cl.personal_id) col))
  unfolding finalize_init update_color send_msg monad os_call
  finalize_init-confirmation_msg msg cl k s color small socket sends =
      let (col, e) = get_color_total k small in
      let read : stoi (to_string cl.color_id) ≡ ok (pos k) =
        rw color (stoi-to_string (pos k) (omega arith)) in
      let (n, answered) = sends (printed (endl col) ∷ printed (endl color_end) ∷ s.trace) in
      (col, e, rw (read, e, socket, answered))
