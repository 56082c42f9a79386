-- ===== src/Tests/Threads.antt =====
-- The threads of the server, round by round.
use chat_app.Common.{ℕ, ◌≡◌, ◌≤◌, List, [], ◌∷◌, some, arith, pos}
use chat_app.Text.{Bytes}
use chat_app.Message.{empty_msg}
use chat_app.Resources.{max_clients}
use chat_app.Epoll.{EpollManager}
use chat_app.State.{ClientData, App, occupant}
use chat_app.Slots.{find_client}
use chat_app.Server.Invariant.{IsValid}
use chat_app.Listener.{listener_round}
use chat_app.WorkerLoop.{Locals, worker_round}
use chat_app.System.Reach.{started, start, listener, worker, IsReachable-IsValid}
use chat_app.Samples.{list_queue, calm_kernel}

abbrev watching : EpollManager
watching = record { epfd = pos 3; events = record { fd = pos 4; events = 1 } ∷ [] }

abbrev locals : Locals
locals = record { frame = record { msg = []; msg_len = 512 }; msg = empty_msg }

-- A connection comes on socket 4, and then the worker looks at its client.
abbrev connected_app : App (List Bytes)
connected_app = (listener_round watching (pos 1) (pos 4) (pos 8) (started (pos 4) [])).1

abbrev served_app : App (List Bytes)
served_app =
    (worker_round 1 watching (pos 1) 0 (pos 9) (pos 8) ((pos 7, pos 0) ∷ []) locals connected_app).1

IsReachable-IsValid_example :
    IsValid served_app.server
    × (served_app.server.nr_of_connections ≤ max_clients)
    × ((i : ℕ) (c : ClientData (List Bytes))
        → occupant served_app.server.clients i ≡ some c
        → find_client c.personal_id served_app.server.clients ≡ some i)
IsReachable-IsValid_example = IsReachable-IsValid served_app (
    worker 1 watching (pos 1) 0 (pos 9) (pos 8) ((pos 7, pos 0) ∷ []) locals
      (listener watching (pos 1) (pos 4) (pos 8) (omega arith) (start (pos 4) [])))
