-- ===== src/Tests/Beginnings.antt =====
-- The server and a client come up, and come to terms; and a worker that ends first.
use chat_app.Common.{
  ℕ, ◌≡◌, ◌⊎◌, refl, inl, List, [], ◌∷◌, none, some, arith, pos, minus_one, ok, throw, Exception,
  length, monad,
}
use chat_app.Text.{Bytes, codes}
use chat_app.Text.Decimal.{to_string}
use chat_app.Message.{empty_msg, get_concatenated_msg, construct_from_string}
use chat_app.Resources.{localhost, get_color, port}
use chat_app.Kernel.{event_created, spawned, joined}
use chat_app.State.{App}
use chat_app.Slots.{find_client}
use chat_app.Server.Sending.{IsSeated}
use chat_app.Manager.{process_new_client}
use chat_app.Manager.Pair.{load}
use chat_app.Manager.Balance.{IsBalanced}
use chat_app.Manager.Overwriting.{process_new_client_overwrites}
use chat_app.Epoll.{EpollManager}
use chat_app.Client.{done_msg, Process, os_call}
use chat_app.Client.Calls.{finalize_init}
use chat_app.Client.Confirm.{confirmed}
use chat_app.Client.Loops.{send_round, receive_round}
use chat_app.Client.Dialogue.{sends, Said}
use chat_app.Client.Threads.{Runs, connects, sending, receiving, Runs-Said}
use chat_app.Client.Setup.{construct_client, new_process}
use chat_app.Client.Joining.{
  first_msg, given_name, Fails, connected_process, asking_process, construct_client-asks,
}
use chat_app.System.Reach.{started, IsReachable}
use chat_app.System.Running.{bring_up, set_up_calls, SetUpFails, bring_up-IsReachable}
use chat_app.System.Opening.{server_side, answer, opened_server, server_side-opens}
use chat_app.Tests.Clients.{asking}
use chat_app.Samples.{sample_app, sample_client, list_queue, calm_kernel}

bring_up-IsReachable_example :
    let (r, s) = bring_up localhost (started {Q = List Bytes} minus_one []) in
    ((e : Exception) × SetUpFails localhost × (r ≡ throw e))
    ⊎ ((n : ℕ) × (r ≡ ok tt) × IsReachable s × (s ≡ started (pos n) (set_up_calls localhost n)))
bring_up-IsReachable_example = bring_up-IsReachable {Q = List Bytes} localhost

abbrev quiet : EpollManager
quiet = record { epfd = pos 3; events = [] }

construct_client-asks_example :
    ((e : Exception) × Fails 2 1 0 port localhost []
      × ((construct_client 2 1 0 localhost port (new_process [])).0 ≡ throw e))
    ⊎ ((evfd fd : ℕ) × (construct_client 2 1 0 localhost port (new_process [])
          ≡ (ok tt, connected_process 2 1 0 port localhost [] evfd fd))
        × (send_round quiet (connected_process 2 1 0 port localhost [] evfd fd)
            ≡ (ok quiet, asking_process 2 1 0 port localhost [] evfd fd)))
construct_client-asks_example =
    construct_client-asks 2 1 0 port localhost [] quiet refl (λ t fd text. (length text, refl))

-- The client that comes up, and the one that has asked to be initialised and then hears nothing.
abbrev come_up : Process
come_up = (construct_client 2 1 0 localhost port (new_process [])).1

abbrev waiting : Process
waiting = (receive_round quiet (send_round quiet come_up).1).1

waiting-Runs : Runs 2 1 0 port localhost [] waiting
unfolding construct_client send_round monad os_call get_color
waiting-Runs = receiving quiet (sending {s = come_up} quiet quiet refl (connects refl))

Runs-Said_example :
    (fd : ℕ) × (waiting.client.cl_socket ≡ pos fd)
    × (waiting.client.name ≡ given_name 2 1 0 port localhost [])
    × Said fd
        (given_name 2 1 0 port localhost [])
        waiting.client.init_req
        waiting.client.init_done
        waiting.client.id
        (sends waiting.trace)
Runs-Said_example = Runs-Said 2 1 0 port localhost [] waiting waiting-Runs

-- Client 1 of the sample is new.
new-IsSeated : IsSeated 2 (sample_client 1 (pos 0)) sample_app
unfolding find_client
new-IsSeated = record { here = refl; named = refl; listening = refl; open_fd = refl }

server_side-opens_example :
    (construct_from_string empty_msg (get_concatenated_msg (first_msg (codes "bob")))
      ≡ ok (first_msg (codes "bob")))
    × (construct_from_string empty_msg
          (get_concatenated_msg (answer (codes "bob") (sample_client 1 (pos 0))))
        ≡ ok (answer (codes "bob") (sample_client 1 (pos 0))))
    × (construct_from_string empty_msg (get_concatenated_msg done_msg) ≡ ok done_msg)
    × (server_side 128 2 (pos 8) (first_msg (codes "bob")) done_msg sample_app ≡ (
      ok (answer (codes "bob") (sample_client 1 (pos 0))),
      opened_server 2 (pos 8) (codes "bob") (sample_client 1 (pos 0)) sample_app,
    ))
    × ((col : Bytes) × (get_color (pos 3) ≡ ok col)
        × (finalize_init (answer (codes "bob") (sample_client 1 (pos 0))) asking
            ≡ (ok tt, confirmed asking 3 (to_string (pos 1)) col)))
server_side-opens_example =
    server_side-opens (codes "bob") 128 2 3 (pos 8) (sample_client 1 (pos 0)) sample_app asking refl
      new-IsSeated refl refl (omega arith) (λ t text. (length text, refl))
      (record { open_evfd = refl; writes = λ t. refl }) (omega arith) refl
      (λ t text. (length text, refl))

-- Worker 0 has ended, worker 1 runs with one client.
abbrev one_left : App (List Bytes)
one_left = record sample_app {
  manager = record sample_app.manager {
    max_clients_per_thread = 1;
    nr_of_launched_threads = 1;
    worker_threads = none ∷ some (record { nr_clients = 1; evfd = pos 10 }) ∷ [];
  };
}

process_new_client_overwrites_example :
    let (r, s') = process_new_client (pos 7) (pos 2) (pos 8) one_left in
    (load s' ≡ record (load one_left) {
      launched = 2;
      workers = none ∷ some (record { nr_clients = 1; evfd = pos 9 }) ∷ [];
    })
    × (s'.trace ≡ joined 1 ∷ spawned 1 (pos 7) (pos 2) (pos 9) ∷ event_created ∷ [])
    × (IsBalanced (load s') → ⊥)
process_new_client_overwrites_example =
    process_new_client_overwrites (record { nr_clients = 1; evfd = pos 10 }) 9 (pos 7) (pos 2)
      (pos 8) one_left refl (omega arith, (refl, (omega arith, inl (omega arith)))) (omega arith)
      refl
