-- ===== src/Tests/Queueing.antt =====
-- What waits for a client, for the listener, and who has left a worker.
use chat_app.Common.{
  ℕ, zero, suc, ◌≤◌, ◌≡◌, refl, sym, ◌∙◌, false, List, [], ◌∷◌, none, some, arith, pos, negsuc, ok,
  length, inl,
}
use chat_app.Text.{Bytes, codes}
use chat_app.Message.{empty_msg, get_concatenated_msg}
use chat_app.Epoll.{EpollManager, epollout}
use chat_app.State.{ClientData, App, occupant}
use chat_app.Slots.{find_client}
use chat_app.Server.Sending.{IsSeated}
use chat_app.Manager.Broadcast.{with_clients, all_with_text}
use chat_app.Listener.{listener_process_worker_to_listener_q}
use chat_app.Listener.Repeating.{repeated_text, after_pop, listener_process-repeats}
use chat_app.Handshake.{process_client_state}
use chat_app.Handshake.Draining.{sent_all, with_queue, process_client_state-drains}
use chat_app.Room.{room_of, hear}
use chat_app.Room.Working.{Remains, worker_round-Remains}
use chat_app.Room.Hearing.{process_client_state-hear}
use chat_app.WorkerLoop.{Served, Locals, worker_round, remove_disconnected}
use chat_app.WorkerLoop.Removal.{
  staying, reports, last_msg, AllConnected, remove_disconnected-staying,
}
use chat_app.Tests.Delivering.{
  chat_table, chat_state, chat_slots, line_msg, line-IsSendable, chat-IsUnique, stoi_zero,
}
use chat_app.Samples.{sample_app, sample_client, list_queue, calm_kernel}

-- Two texts wait for client 0.
abbrev waiting_client : ClientData (List Bytes)
waiting_client = record (sample_client 0 (pos 3)) { send_queue = codes "one" ∷ codes "two" ∷ [] }

abbrev waiting_state : App (List Bytes)
waiting_state = record sample_app {
  server = record sample_app.server { clients = some waiting_client ∷ none ∷ [] };
}

waiting-IsSeated : IsSeated 0 waiting_client waiting_state
unfolding find_client
waiting-IsSeated = record { here = refl; named = refl; listening = refl; open_fd = refl }

process_client_state-drains_example :
    (q : List Bytes) × (q ≡ [])
    × (process_client_state 128 false empty_msg 0 (pos 8) waiting_state ≡ (
      ok empty_msg,
      with_queue 0 waiting_state waiting_client q
          (sent_all (pos 4) (codes "one" ∷ codes "two" ∷ []) []),
    ))
process_client_state-drains_example =
    process_client_state-drains 0 128 empty_msg (pos 8) waiting_client waiting_state
      waiting-IsSeated (λ t text. (length text, refl)) refl (omega arith)

only_client :
    (i : ℕ) (c : ClientData (List Bytes)) → occupant waiting_state.server.clients i ≡ some c → i ≡ 0
only_client zero c e = refl
only_client (suc zero) c e = cc
only_client (suc (suc i)) c e = cc

process_client_state-hear_example :
    let (r, s') = process_client_state 128 false empty_msg 0 (pos 8) waiting_state in
    (room_of s' ≡ hear (pos 0) (room_of waiting_state))
    × (s'.trace ≡ sent_all (pos 4) (codes "one" ∷ codes "two" ∷ []) [])
process_client_state-hear_example =
    process_client_state-hear 128 0 empty_msg (pos 8) waiting_client
      (codes "one" ∷ codes "two" ∷ []) waiting_state waiting-IsSeated
      (λ i j c d at there same. only_client i c at ∙ sym (only_client j d there))
      (λ t text. (length text, refl)) refl refl (omega arith)

-- A round of its worker, after its socket has become writable.
abbrev writable : EpollManager
writable = record { epfd = pos 3; events = record { fd = pos 4; events = epollout } ∷ [] }

abbrev locals : Locals
locals = record { frame = record { msg = []; msg_len = 512 }; msg = empty_msg }

worker_round-Remains_example :
    Remains
      (room_of
        (worker_round 128 writable
          (pos 1)
          0
          (pos 9)
          (pos 8)
          ((pos 4, pos 0) ∷ [])
          locals
          waiting_state).1
        (pos 0))
      (room_of waiting_state (pos 0))
worker_round-Remains_example =
    worker_round-Remains 128 writable (pos 1) 0 (pos 9) (pos 8) ((pos 4, pos 0) ∷ []) locals
      waiting_state (pos 0)

-- Client 1 has left, client 0 has not.
abbrev left_state : App (List Bytes)
left_state = record sample_app {
  server = record sample_app.server {
    clients = some (sample_client 0 (pos 3)) ∷ some (sample_client 1 (negsuc 0)) ∷ [];
  };
}

abbrev served : List Served
served = (pos 4, pos 0) ∷ (pos 5, pos 1) ∷ []

served-AllConnected : AllConnected left_state.server.clients served
unfolding find_client
served-AllConnected = ((_, refl), ((_, refl), tt))

short_reports : length (reports empty_msg 0 left_state.server.clients served) ≤ 128
unfolding find_client
short_reports = omega arith

remove_disconnected-staying_example :
    let (r, s') = remove_disconnected 0 (pos 8) served empty_msg left_state in
    (r
      ≡ ok (
        staying left_state.server.clients served,
        last_msg empty_msg 0 left_state.server.clients served,
      ))
    × (s'.manager.q_worker_to_listener ≡ reports empty_msg 0 left_state.server.clients served)
    × (s'.server ≡ left_state.server)
remove_disconnected-staying_example =
    remove_disconnected-staying 0 (pos 8) served empty_msg left_state served-AllConnected
      (record { open_evfd = refl; writes = λ t. refl }) (omega (arith, short_reports))

-- The line of client 0 waits for the listener.
abbrev line_waits : App (List Bytes)
line_waits = record chat_state {
  manager = record chat_state.manager { q_worker_to_listener = get_concatenated_msg line_msg ∷ [] };
}

listener_process-repeats_example :
    (q : List Bytes) × (q ≡ [])
    × (listener_process_worker_to_listener_q (pos 8) line_waits ≡ (
      ok tt,
      with_clients
          (after_pop line_waits (pos 8) q)
          (all_with_text (pos 0) (repeated_text line_msg) chat_table),
    ))
listener_process-repeats_example =
    listener_process-repeats line_msg (pos 0) (pos 8) [] line_waits line-IsSendable.clean (inl refl)
      stoi_zero refl refl chat-IsUnique (λ i c e. ground (arith, chat_slots i c e))
