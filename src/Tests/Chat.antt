-- ===== src/Tests/Chat.antt =====
-- The handshake and the repeated messages.
use chat_app.Common.{
  ℕ, zero, suc, ◌≡◌, true, List, [], ◌∷◌, ◌++◌, some, arith, if◌then◌else◌, pos, int_eq, ok,
}
use chat_app.Text.{Bytes, codes}
use chat_app.State.{ClientData, occupant}
use chat_app.Slots.{connected_ids}
use chat_app.Manager.{unicast_repeated}
use chat_app.Manager.Broadcast.{
  with_clients, with_text, all_with_text, HasRoom, unicast_repeated-connected_ids,
}
use chat_app.Handshake.{process_client_state}
use chat_app.Handshake.States.{Moved}
use chat_app.Handshake.Moves.{process_client_state-Moved}
use chat_app.Tests.Table.{sample-IsUnique}
use chat_app.Samples.{sample_app, sample_table, request_msg, list_queue, calm_kernel}

-- Client 1, in slot 2, asks to be initialised.
process_client_state-Moved_example :
    Moved true request_msg 2 sample_app
      (process_client_state 0 true request_msg 2 (pos 8) sample_app).1
process_client_state-Moved_example =
    process_client_state-Moved request_msg 2 0 true (pos 8) sample_app

sample-HasRoom : HasRoom (pos 0) (codes "hi") sample_table
sample-HasRoom zero c e = ground arith
sample-HasRoom (suc zero) c e = cc
sample-HasRoom (suc (suc zero)) c e = ground arith
sample-HasRoom (suc (suc (suc zero))) c e = cc
sample-HasRoom (suc (suc (suc (suc zero)))) c e = cc
sample-HasRoom (suc (suc (suc (suc (suc zero))))) c e = cc
sample-HasRoom (suc (suc (suc (suc (suc (suc i)))))) c e = cc

unicast_repeated-connected_ids_example :
    (unicast_repeated (pos 0) (connected_ids sample_table) (codes "hi") sample_app
      ≡ (ok tt, with_clients sample_app (all_with_text (pos 0) (codes "hi") sample_table)))
    × ((i : ℕ) (c : ClientData (List Bytes))
        → occupant sample_table i ≡ some c
        → (with_text (pos 0) (codes "hi") c).send_queue ≡ (
            if int_eq (pos 0) c.personal_id then c.send_queue else c.send_queue ++ codes "hi" ∷ []))
unicast_repeated-connected_ids_example =
    unicast_repeated-connected_ids (pos 0) (codes "hi") sample_app sample-IsUnique sample-HasRoom
