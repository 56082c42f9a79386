-- ===== src/Tests/Clients.antt =====
-- The client process, and how it is started.
use chat_app.Common.{
  fault, ◌<◌, ℕ, ◌≤◌, ◌≡◌, ◌⊎◌, refl, inr, true, false, List, [], ◌∷◌, Option, none, some, arith,
  if◌then◌else◌, pos, ok, length, get_elem?,
}
use chat_app.Text.{Bytes, codes, bytes_eq}
use chat_app.Text.Decimal.{to_string}
use chat_app.Message.{ServerMessage, empty_msg, reset_msg}
use chat_app.Resources.Printing.{terminal_line, stdout_formatted_msg-get_color}
use chat_app.Resources.{
  Actions, get_action, color_arr, on_cout, stdout_formatted_msg, get_color, localhost, quit_msg,
}
use chat_app.Kernel.{Kernel, sent, received, signalled, line_read}
use chat_app.Handshake.{confirmation_msg}
use chat_app.Client.{Process}
use chat_app.Client.Calls.{finalize_init, send_msg_from_stdin, receive_msg_from_sv}
use chat_app.Client.Confirm.{confirmed, finalize_init-confirmation_msg}
use chat_app.Client.Typing.{text_for, send_msg_from_stdin-sends}
use chat_app.Client.Receiving.{receive_msg_from_sv-NothingReceived}
use chat_app.Startup.{dots, check_argv_1, client_main, get_sv_addr, run_at}
use chat_app.Startup.Addresses.{client_main-run_at}
use chat_app.Samples.{sample_client, calm_kernel}

-- A client that has asked to be initialised.
abbrev pub asking : Process
asking = record {
  client = record {
    is_initialized_flag = false;
    cl_event_fd = pos 6;
    name = codes "ann";
    color_id = pos 7;
    id = [];
    init_req = true;
    init_done = false;
    cl_socket = pos 5;
    done = false;
  };
  frame = record { msg = []; msg_len = 512 };
  msg = empty_msg;
  trace = [];
}

finalize_init-confirmation_msg_example :
    (col : Bytes) × (get_color (pos 3) ≡ ok col)
    × (finalize_init ⦃os = calm_kernel⦄
          (confirmation_msg empty_msg (sample_client 1 (pos 2)))
          asking
        ≡ (ok tt, confirmed ⦃os = calm_kernel⦄ asking 3 (to_string (pos 1)) col))
finalize_init-confirmation_msg_example =
    finalize_init-confirmation_msg ⦃os = calm_kernel⦄ empty_msg (sample_client 1 (pos 2)) 3 asking
      refl (omega arith) refl λ t. (_, refl)

abbrev chat_line : ServerMessage
chat_line = record empty_msg {
  action = get_action Actions.unicast_repeated;
  name = codes "bob";
  color_id = to_string (pos 5);
  msg_content = codes "hi";
}

stdout_formatted_msg-get_color_example :
    (5 ≤ 14
      → (col own : Bytes) × (get_elem? color_arr 5 ≡ some col)
        × (get_elem? color_arr 3 ≡ some own)
        × (stdout_formatted_msg chat_line (pos 3) ≡ ok (on_cout (terminal_line chat_line col own))))
    × (14 < 5 → stdout_formatted_msg chat_line (pos 3) ≡ fault)
stdout_formatted_msg-get_color_example =
    stdout_formatted_msg-get_color chat_line 5 3 refl refl (omega arith) (omega arith)

-- The user has typed a line.
abbrev typing_kernel : Kernel
typing_kernel = record calm_kernel { line_result = λ t. some (codes "hi") }

send_msg_from_stdin-sends_example : send_msg_from_stdin ⦃os = typing_kernel⦄ asking ≡ (
  ok tt,
  record asking {
    client =
        (if bytes_eq (codes "hi") quit_msg
          then record asking.client { done = true }
          else asking.client);
    msg = reset_msg asking.msg;
    trace = sent (pos 5) (text_for ⦃os = typing_kernel⦄ asking (codes "hi")) ∷ line_read ∷ [];
  },
)
send_msg_from_stdin-sends_example =
    send_msg_from_stdin-sends ⦃os = typing_kernel⦄ asking (codes "hi") _ refl refl refl refl

nothing_fits : (n : ℕ) (bytes : Bytes) → none ≡ some bytes → length bytes ≤ n
nothing_fits n bytes e = cc

-- No data has come yet.
abbrev idle_kernel : Kernel
idle_kernel = record calm_kernel {
  recv_result = λ t fd n. none;
  recv_would_block = λ t fd. true;
  recv_fits = λ t fd n {bytes} e. nothing_fits n bytes e;
}

receive_msg_from_sv-NothingReceived_example :
    ((receive_msg_from_sv ⦃os = idle_kernel⦄ asking).1.client
      ≡ record asking.client { done = true })
    × ((receive_msg_from_sv ⦃os = idle_kernel⦄ asking).1.trace
        ≡ signalled (pos 6) ∷ received (pos 5) ∷ [])
receive_msg_from_sv-NothingReceived_example =
    receive_msg_from_sv-NothingReceived ⦃os = idle_kernel⦄ asking refl (inr (refl, refl))

abbrev avahi : Option (List Bytes)
avahi = some (codes "192.168." ∷ codes "1.7\n" ∷ [])

runs : client_main (codes "LAN" ∷ []) avahi ≡ run_at (codes "192.168.1.7")
unfolding client_main check_argv_1 get_sv_addr
runs = refl

client_main-run_at_example :
    (3 ≤ dots (codes "192.168.1.7"))
    × (((codes "LAN" ∷ [] ≡ codes "LOCALHOST" ∷ []) × (codes "192.168.1.7" ≡ localhost))
        ⊎ ((codes "LAN" ∷ [] ≡ codes "LAN" ∷ []) × (codes "192.168.1.7" ≡ get_sv_addr avahi)))
client_main-run_at_example = client_main-run_at (codes "LAN" ∷ []) avahi (codes "192.168.1.7") runs
