-- ===== src/Tests/Leaving.antt =====
-- A client leaves, and the others are told.
use chat_app.Common.{zero, suc, ◌≡◌, refl, arith, pos, ok}
use chat_app.Text.{codes}
use chat_app.Text.Decimal.{stoi}
use chat_app.Message.{ServerMessage, empty_msg, get_concatenated_msg}
use chat_app.Resources.{Actions, get_action}
use chat_app.Slots.{find_client, connected_ids}
use chat_app.Manager.OneFewer.{after_leaving}
use chat_app.Manager.Broadcast.{HasRoom}
use chat_app.Listener.{client_disconnected}
use chat_app.Listener.Farewell.{left_msg, bidden, client_disconnected-farewell}
use chat_app.Tests.Table.{sample_app-IsFresh}
use chat_app.Samples.{sample_app, sample_table, sample_client, list_queue, calm_kernel}

-- Worker 1 reports that its client 1, in slot 2, has left.
abbrev pub leaving_msg : ServerMessage
leaving_msg = record empty_msg {
  action = get_action Actions.cl_disconnected;
  id = codes "1";
  thread_number = codes "1";
  name = codes "ann";
}

pub stoi_one : stoi (codes "1") ≡ ok (pos 1)
unfolding stoi
stoi_one = refl

pub room : HasRoom (pos 1) (get_concatenated_msg (left_msg leaving_msg)) sample_table
room zero c e = ground arith
room (suc zero) c e = cc
room (suc (suc zero)) c e = ground arith
room (suc (suc (suc zero))) c e = cc
room (suc (suc (suc (suc zero)))) c e = cc
room (suc (suc (suc (suc (suc zero))))) c e = cc
room (suc (suc (suc (suc (suc (suc i)))))) c e = cc

client_disconnected-farewell_example :
    client_disconnected leaving_msg (connected_ids sample_table) sample_app ≡ (
      ok tt,
      after_leaving 1
          (record { nr_clients = 1; evfd = pos 10 })
          (bidden leaving_msg (pos 1) 2 (sample_client 1 (pos 0)) sample_app),
    )
unfolding find_client
client_disconnected-farewell_example =
    client_disconnected-farewell leaving_msg (pos 1) 1 2 (sample_client 1 (pos 0))
      (record { nr_clients = 1; evfd = pos 10 }) sample_app stoi_one stoi_one (omega arith) refl
      (omega arith) refl refl sample_app-IsFresh room
