-- ===== src/Tests/Stopping.antt =====
-- The quit message at the console of a server with two clients.
use chat_app.Common.{ℕ, suc, ◌≡◌, refl, true, List, [], ◌∷◌, some, arith, ℤ, pos, ok}
use chat_app.Text.{Bytes}
use chat_app.Message.{empty_msg}
use chat_app.Resources.{quit_msg}
use chat_app.Epoll.{EpollManager}
use chat_app.State.{App}
use chat_app.Listener.{quit_server, listener_rounds}
use chat_app.WorkerLoop.{Served, Locals, worker_round, worker_rounds}
use chat_app.System.Ending.{now, worker, goodbye, quit_server-ends, quit_server-undelivered}
use chat_app.Samples.{sample_app, sample_table, list_queue, calm_kernel}

abbrev quiet : EpollManager
quiet = record { epfd = pos 3; events = [] }

abbrev locals : Locals
locals = record { frame = record { msg = []; msg_len = 512 }; msg = empty_msg }

abbrev quitting : App (List Bytes)
quitting = (quit_server (some quit_msg) sample_app).1

-- A worker makes one more round.
abbrev after_round : App (List Bytes)
after_round =
    (worker_round 1 quiet (pos 0) 0 (pos 9) (pos 8) ((pos 4, pos 0) ∷ []) locals quitting).1

quit_server-ends_example :
    ((fuel : ℕ) (em : EpollManager) (sv_socket evfd : ℤ)
      → listener_rounds (suc fuel) em sv_socket evfd after_round ≡ (ok true, after_round))
    × ((fuel : ℕ) (em : EpollManager) (j : ℕ) (personal_evfd evfd : ℤ) (clients : List Served)
          (l : Locals)
        → worker_rounds (suc fuel) em j personal_evfd evfd clients l after_round
          ≡ (ok true, after_round))
quit_server-ends_example =
    quit_server-ends sample_app after_round refl
      (worker 1 quiet (pos 0) 0 (pos 9) (pos 8) ((pos 4, pos 0) ∷ []) locals now)

quit_server-undelivered_example :
    (quitting.manager.q_worker_to_listener ≡ goodbye ∷ [])
    × (quitting.server.clients ≡ sample_table)
    × ((fuel : ℕ) (em : EpollManager) (sv_socket evfd : ℤ)
        → listener_rounds (suc fuel) em sv_socket evfd quitting ≡ (ok true, quitting))
quit_server-undelivered_example = quit_server-undelivered sample_app refl (omega arith)
