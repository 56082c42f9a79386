-- ===== src/Tests/Delivering.antt =====
-- Two clients in the chat: a line of one reaches the other, and one of them leaves.
use chat_app.Common.{
  ℕ, ap, zero, suc, ◌≡◌, ◌⊎◌, refl, List, [], ◌∷◌, Option, none, some, arith, pos, ok, length, take,
}
use chat_app.Text.{Bytes, codes}
use chat_app.Text.Decimal.{stoi}
use chat_app.Message.{ServerMessage, empty_msg, get_concatenated_msg, reset_msg}
use chat_app.Resources.{Actions, get_action, max_len}
use chat_app.Frame.{MessageFrame}
use chat_app.Kernel.{Kernel, received, signalled, drained}
use chat_app.State.{ClientData, App, occupant}
use chat_app.Slots.{find_client}
use chat_app.Slots.Lookup.{IsUnique}
use chat_app.Manager.Pushing.{waiting}
use chat_app.Frame.Reading.{IsSendable}
use chat_app.Handshake.Draining.{sent_all}
use chat_app.System.Delivery.{IsReady, IsChatting, chat_path, chat_path-delivers}
use chat_app.Samples.{sample_app, sample_client, list_queue, calm_kernel, fits_some}

-- Client 0 in slot 0 and client 1 in slot 2, both in the chat.
abbrev pub chat_table : List (Option (ClientData (List Bytes)))
chat_table =
    some (sample_client 0 (pos 3)) ∷ none ∷ some (sample_client 1 (pos 3)) ∷ none ∷ none ∷ none ∷ []

abbrev pub chat_state : App (List Bytes)
chat_state = record sample_app { server = record sample_app.server { clients = chat_table } }

abbrev pub line_msg : ServerMessage
line_msg = record empty_msg {
  action = get_action Actions.unicast_repeated;
  id = codes "0";
  name = codes "ann";
  color_id = codes "3";
  msg_content = codes "hi";
}

abbrev line_text : Bytes
line_text = codes "`UNICAST_REPEATED``0`ann`3``hi`"

line_read : get_concatenated_msg line_msg ≡ line_text
unfolding get_concatenated_msg
line_read = refl

-- The line comes in at the socket.
abbrev line_kernel : Kernel
line_kernel = record calm_kernel {
  recv_result = λ t fd n. some (take n line_text);
  recv_fits = λ t fd n {bytes} e. fits_some n line_text bytes e;
}

pub chat_slots :
    (i : ℕ) (c : ClientData (List Bytes))
    → occupant chat_table i ≡ some c
    → ((i ≡ 0) × (c ≡ sample_client 0 (pos 3))) ⊎ ((i ≡ 2) × (c ≡ sample_client 1 (pos 3)))
chat_slots zero c e = ground arith
chat_slots (suc zero) c e = cc
chat_slots (suc (suc zero)) c e = ground arith
chat_slots (suc (suc (suc zero))) c e = cc
chat_slots (suc (suc (suc (suc zero)))) c e = cc
chat_slots (suc (suc (suc (suc (suc zero))))) c e = cc
chat_slots (suc (suc (suc (suc (suc (suc i)))))) c e = cc

pub line-IsSendable : IsSendable line_msg
line-IsSendable = record {
  clean = refl;
  plain = rw line_read (omega arith);
  short = omega (arith, ap length line_read);
}

pub chat-IsUnique : IsUnique chat_table
chat-IsUnique i j c d at there same = ground (arith, chat_slots i c at, chat_slots j d there)

first-IsChatting : IsChatting ⦃os = line_kernel⦄ 0 (sample_client 0 (pos 3)) chat_state
unfolding find_client
first-IsChatting = record {
  seated = record { here = refl; named = refl; listening = refl; open_fd = refl };
  open_chat = refl;
}

second-IsChatting : IsChatting ⦃os = line_kernel⦄ 2 (sample_client 1 (pos 3)) chat_state
unfolding find_client
second-IsChatting = record {
  seated = record { here = refl; named = refl; listening = refl; open_fd = refl };
  open_chat = refl;
}

chat-IsReady : IsReady ⦃os = line_kernel⦄ (pos 8) chat_state
chat-IsReady = record {
  unique = chat-IsUnique;
  room = λ i c e. ground (arith, chat_slots i c e);
  idle = refl;
  awake = record { open_evfd = refl; writes = λ t. refl };
  readable = λ t. refl;
}

pub stoi_zero : stoi (codes "0") ≡ ok (pos 0)
unfolding stoi
stoi_zero = refl

abbrev any_frame : MessageFrame
any_frame = record { msg = []; msg_len = max_len }

chat_path-delivers_example :
    let (r, s') =
      chat_path ⦃os = line_kernel⦄ 1 empty_msg any_frame 0 2
        (pos 8)
        (sample_client 0 (pos 3))
        chat_state in
    (r ≡ ok (reset_msg line_msg))
    × (s'.trace
        ≡ sent_all
            (pos 5)
            (get_concatenated_msg line_msg ∷ [])
            (drained (pos 8) ∷ signalled (pos 8) ∷ received (pos 4) ∷ []))
    × (occupant s'.server.clients 0 ≡ some (sample_client 0 (pos 3)))
    × (waiting s' ≡ [])
chat_path-delivers_example =
    chat_path-delivers ⦃os = line_kernel⦄ line_msg empty_msg any_frame 0 2 (pos 8)
      (sample_client 0 (pos 3)) (sample_client 1 (pos 3)) chat_state 1 line-IsSendable refl
      stoi_zero chat-IsReady first-IsChatting second-IsChatting (omega arith) (rw line_read refl)
      (λ t text. (length text, refl)) (omega arith)
