-- ===== src/Tests/Early.antt =====
-- The confirmation of the server comes to a client that has sent its request.
use chat_app.Common.{◌≡◌, refl, true, false, List, some, arith, pos, ok, length, take}
use chat_app.Text.{Bytes}
use chat_app.Text.Decimal.{to_string}
use chat_app.Message.{empty_msg, get_concatenated_msg}
use chat_app.Resources.{get_color}
use chat_app.Frame.{clear_msg}
use chat_app.Frame.Reading.{IsSendable}
use chat_app.Kernel.{Kernel}
use chat_app.State.{ClientData}
use chat_app.Handshake.{confirmation_msg}
use chat_app.Client.{Process}
use chat_app.Client.Calls.{receive_msg_from_sv}
use chat_app.Client.Confirm.{confirmed}
use chat_app.Client.Early.{with_bytes, receive_msg_from_sv-confirmation_msg}
use chat_app.Tests.Clients.{asking}
use chat_app.Samples.{sample_client, calm_kernel, fits_some}

abbrev server_client : ClientData (List Bytes)
server_client = sample_client 1 (pos 2)

abbrev sent_bytes : Bytes
sent_bytes = get_concatenated_msg (confirmation_msg empty_msg server_client)

abbrev confirming_kernel : Kernel
confirming_kernel = record calm_kernel {
  recv_result = λ t fd n. some (take n sent_bytes);
  recv_fits = λ t fd n {bytes} e. fits_some n sent_bytes bytes e;
}

confirmation-IsSendable : IsSendable (confirmation_msg empty_msg server_client)
unfolding get_concatenated_msg to_string
confirmation-IsSendable = record { clean = refl; plain = ground arith; short = omega arith }

abbrev cleared : Process
cleared = record asking { frame = clear_msg asking.frame }

receive_msg_from_sv-confirmation_msg_example :
    (cleared.client.init_req ≡ true
      → (col : Bytes) × (get_color (pos 3) ≡ ok col)
        × (receive_msg_from_sv ⦃os = confirming_kernel⦄ cleared ≡ (
          ok tt,
          record (confirmed ⦃os = confirming_kernel⦄
              (with_bytes ⦃os = confirming_kernel⦄ sent_bytes asking.frame cleared)
              3
              (to_string (pos 1))
              col) { frame = clear_msg asking.frame },
        )))
    × (cleared.client.init_req ≡ false
        → receive_msg_from_sv ⦃os = confirming_kernel⦄ cleared
          ≡ (ok tt, with_bytes ⦃os = confirming_kernel⦄ sent_bytes asking.frame cleared))
unfolding get_concatenated_msg to_string
receive_msg_from_sv-confirmation_msg_example =
    receive_msg_from_sv-confirmation_msg ⦃os = confirming_kernel⦄ empty_msg server_client 3
      asking.frame cleared confirmation-IsSendable refl (omega arith) refl refl refl
      (λ t text. (length text, refl)) refl
