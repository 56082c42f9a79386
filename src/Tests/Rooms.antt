-- ===== src/Tests/Rooms.antt =====
-- The room of two clients: one of them leaves, and a third one comes.
use chat_app.Common.{◌≡◌, ◌⊎◌, refl, inr, true, List, [], ◌∷◌, arith, pos, ok}
use chat_app.Text.{Bytes}
use chat_app.Message.{get_concatenated_msg}
use chat_app.State.{App}
use chat_app.Slots.{find_client}
use chat_app.Server.{accept_client}
use chat_app.Server.Identifiers.{IsFresh-same}
use chat_app.Listener.{listener_process_worker_to_listener_q}
use chat_app.Room.{room_of, enter}
use chat_app.Room.Refine.{accept_client-enter}
use chat_app.Room.Listening.{Grown, listener_process-Grown}
use chat_app.Room.Messages.{HasLeft, meaning, listener_process-meaning}
use chat_app.Tests.Table.{sample_app-IsFresh}
use chat_app.Tests.Leaving.{leaving_msg, stoi_one, room}
use chat_app.Samples.{sample_app, list_queue, calm_kernel}

-- The report waits for the listener.
abbrev report_waits : App (List Bytes)
report_waits = record sample_app {
  manager = record sample_app.manager {
    q_worker_to_listener = get_concatenated_msg leaving_msg ∷ [];
  };
}

report-HasLeft : HasLeft leaving_msg (pos 1) report_waits
unfolding find_client
report-HasLeft = record {
  says = refl;
  t = 1;
  thread = stoi_one;
  inside = omega arith;
  worker = record { nr_clients = 1; evfd = pos 10 };
  running = refl;
  busy = omega arith;
  slot = 2;
  client = _;
  found = refl;
  here = refl;
}

listener_process-meaning_example :
    room_of (listener_process_worker_to_listener_q (pos 8) report_waits).1
    ≡ meaning leaving_msg (pos 1) (room_of report_waits)
listener_process-meaning_example =
    listener_process-meaning leaving_msg (pos 1) (pos 8) [] report_waits (inr report-HasLeft) refl
      stoi_one refl refl (IsFresh-same sample_app report_waits refl refl sample_app-IsFresh) room

listener_process-Grown_example :
    Grown
      (room_of (listener_process_worker_to_listener_q (pos 8) report_waits).1 (pos 0))
      (room_of report_waits (pos 0))
listener_process-Grown_example =
    listener_process-Grown (pos 8) report_waits
      (IsFresh-same sample_app report_waits refl refl sample_app-IsFresh) (pos 0)

accept_client-enter_example :
    let (r, s') = accept_client true sample_app in
    ((r ≡ ok (pos 7, pos 2)) × (room_of s' ≡ enter (pos 2) (room_of sample_app)))
    ⊎ (room_of s' ≡ room_of sample_app)
accept_client-enter_example =
    accept_client-enter true 7 sample_app sample_app-IsFresh (omega arith) refl refl
