-- ===== src/Tests/Balancing.antt =====
-- Load balancing, and the way of a client to its worker.
use chat_app.Common.{
  ℕ, zero, suc, ◌<◌, ◌≡◌, refl, List, [], ◌∷◌, none, some, arith, ◌==◌, if◌then◌else◌, pos, ok,
}
use chat_app.Text.{Bytes}
use chat_app.Message.{get_concatenated_msg}
use chat_app.Epoll.{EpollManager}
use chat_app.State.{Worker, App, occupant, new_manager}
use chat_app.Manager.{accept_msg, process_new_client, worker_client_disconnect}
use chat_app.Manager.Pair.{load}
use chat_app.Manager.Balance.{IsBalanced}
use chat_app.Manager.OneFewer.{Leaves}
use chat_app.Manager.Leaving.{worker_client_disconnect-IsBalanced}
use chat_app.Manager.Overload.{process_new_client_overloads}
use chat_app.WorkerLoop.{worker_process_listener_to_worker_q}
use chat_app.WorkerLoop.TakeOver.{after_pop, watch_and_serve, worker_process-accept}
use chat_app.Samples.{sample_app, list_queue, calm_kernel}

worker_client_disconnect-IsBalanced_example :
    IsBalanced (load (worker_client_disconnect (pos 1) sample_app).1) × Leaves sample_app (pos 1)
worker_client_disconnect-IsBalanced_example =
    worker_client_disconnect-IsBalanced sample_app (pos 1) refl (omega arith, ground arith)

-- Both workers have three clients.
abbrev full_app : App (List Bytes)
full_app = record sample_app {
  manager = record new_manager {
    max_clients_per_thread = 3;
    nr_of_launched_threads = 2;
    worker_threads =
        some (record { nr_clients = 3; evfd = pos 9 })
        ∷ some (record { nr_clients = 3; evfd = pos 10 })
        ∷ [];
  };
}

full_slots :
    (i : ℕ)
    → i < 2
    → (w : Worker) × (occupant full_app.manager.worker_threads i ≡ some w) × (w.nr_clients ≡ 3)
full_slots zero h = (record { nr_clients = 3; evfd = pos 9 }, refl, refl)
full_slots (suc zero) h = (record { nr_clients = 3; evfd = pos 10 }, refl, refl)
full_slots (suc (suc i)) h = absurd (omega arith)

abbrev refused_app : App (List Bytes)
refused_app = (process_new_client (pos 7) (pos 6) (pos 8) full_app).1

process_new_client_overloads_example :
    (w : Worker) × (occupant
        (process_new_client (pos 7) (pos 7) (pos 8) refused_app).1.manager.worker_threads
        0
      ≡ some w)
    × (w.nr_clients ≡ 4)
process_new_client_overloads_example =
    process_new_client_overloads full_app (pos 7) (pos 6) (pos 7) (pos 7) (pos 8) refl refl refl
      full_slots

abbrev watching : EpollManager
watching = record { epfd = pos 3; events = [] }

-- The listener has assigned socket 7 and identifier 2 to worker 1.
abbrev assigned_app : App (List Bytes)
assigned_app = record sample_app {
  manager = record sample_app.manager {
    q_listener_to_worker = get_concatenated_msg (accept_msg 1 (pos 7) (pos 2)) ∷ [];
  };
}

worker_process-accept_example :
    (q : List Bytes) × (q ≡ [])
    × (worker_process_listener_to_worker_q watching 1 (pos 10) assigned_app ≡ (
        if 1 == 1
        then watch_and_serve watching (pos 7) (pos 2) (after_pop assigned_app (pos 10) q)
        else (ok none, after_pop assigned_app (pos 10) q)))
worker_process-accept_example =
    worker_process-accept watching 1 1 (pos 7) (pos 2) (pos 10) [] assigned_app (omega arith)
      (omega arith) (omega arith) (omega arith) refl refl
