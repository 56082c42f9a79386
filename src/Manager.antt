-- ===== src/Manager.antt =====
-- include/Server/ServerThreadManager.h: load balancing over the workers, and the queues between
-- workers and listener. Starting a thread is a call in the trace; its loop is in WorkerLoop.
pub mod Pair
pub mod Balance
pub mod OneFewer
pub mod Leaving
pub mod Overload
pub mod Overwriting
pub mod Broadcast
pub mod Pushing
pub mod Hearing
use chat_app.Common.{
  ℕ, suc, ◌-◌, Bool, not, ◌||◌, List, [], ◌∷◌, Option, none, some, ltb, leb, ◌==◌, if◌then◌else◌, ℤ,
  pos, negsuc, int_eq, is_negative, length, set, M, pure, raise, gets, deref, ◌>>=◌, ◌>>◌, raise_if,
  skip, undefined_behaviour, runtime_error, queue_exception, server_full_exception,
  thread_managing_exception,
}
use chat_app.Text.{Bytes}
use chat_app.Text.Decimal.{to_string}
use chat_app.Message.{ServerMessage, empty_msg, get_concatenated_msg}
use chat_app.Resources.{Actions, get_action, max_nr_of_threads, max_clients_per_thread}
use chat_app.Kernel.{Kernel, eventfd, write_event, note, spawned, joined}
use chat_app.Queues.{StringQueue}
use chat_app.State.{
  Worker, Manager, App, occupant, os_call, on_server, on_manager, client_at, put_client,
}
use chat_app.Server.{get_client_ref}
use chat_app.Workers.{get_min_and_idx, get_max_and_idx}

abbrev pub set_workers : {Q : Type 0} → List (Option Worker) → Manager Q → Manager Q
set_workers ws m = record m { worker_threads = ws }

abbrev pub accept_msg : ℕ → ℤ → ℤ → ServerMessage
accept_msg thread_index socket id = record empty_msg {
  thread_number = to_string (pos thread_index);
  action = get_action Actions.accept;
  fd = to_string socket;
  id = to_string id;
}

module _ {Q : Type 0} where
  abbrev pub workers : M (App Q) (List (Option Worker))
  workers = gets λ s. s.manager.worker_threads

  -- `worker_threads[i]`: undefined outside the array.
  abbrev pub worker_slot : ℤ → M (App Q) ℕ
  worker_slot (negsuc _) = undefined_behaviour
  worker_slot (pos i) = do ws ← workers; if ltb i (length ws) then pure i else undefined_behaviour

  -- `*worker_threads[i]`
  abbrev pub worker_at : ℕ → M (App Q) Worker
  worker_at i = gets (λ s. occupant s.manager.worker_threads i) >>= deref

  abbrev pub put_worker : ℕ → Option Worker → M (App Q) (Unit {0})
  put_worker i w = on_manager λ m. set_workers (set m.worker_threads i w) m

  -- `++std::get<0>(*worker_threads[i])`
  abbrev pub add_client : ℕ → M (App Q) (Unit {0})
  add_client i = do
    w ← worker_at i
    put_worker i (some (record w { nr_clients = suc w.nr_clients }))

  -- The end of a std::jthread waits for the thread.
  abbrev pub join_old : ℕ → Option Worker → M (App Q) (Unit {0})
  join_old i none = skip
  join_old i (some _) = os_call (note (joined i))

  -- `--nr_of_launched_threads` on an int; no run of the program takes it below 0.
  abbrev pub one_less_launched : Manager Q → Manager Q
  one_less_launched m = record m { nr_of_launched_threads = m.nr_of_launched_threads - 1 }

  abbrev pub refresh_max : M (App Q) (Unit {0})
  refresh_max =
      on_manager λ m. record m { max_clients_per_thread = (get_max_and_idx m.worker_threads).0 }

  unfoldable pub worker_client_disconnect : ℤ → M (App Q) (Unit {0})
  worker_client_disconnect thr_personal_idx = do
    i ← worker_slot thr_personal_idx
    ws ← workers
    w ← elim (occupant ws i) [
      | none ↦
          raise (thread_managing_exception "Can't disconnect from a thread that isn't running\n")
      | some w ↦ pure w
    ]
    raise_if (leb w.nr_clients 0)
        (thread_managing_exception "Can't disconnect from a thread that has no connections\n")
    if w.nr_clients == 1
        then (do os_call (note (joined i)); put_worker i none; on_manager one_less_launched)
        else put_worker i (some (record w { nr_clients = w.nr_clients - 1 }))
    refresh_max

module _ {Q : Type 0} ⦃queue : StringQueue Q⦄ ⦃os : Kernel⦄ where
  -- The two queues of the manager.
  abbrev pub push_listener_to_worker : Bytes → M (App Q) Bool
  push_listener_to_worker text = do
    q ← gets λ s. s.manager.q_listener_to_worker
    let (pushed, q') = queue.try_push q text
    on_manager λ m. record m { q_listener_to_worker = q' }
    pure pushed

  abbrev pub push_worker_to_listener : Bytes → M (App Q) Bool
  push_worker_to_listener text = do
    q ← gets λ s. s.manager.q_worker_to_listener
    let (pushed, q') = queue.try_push q text
    on_manager λ m. record m { q_worker_to_listener = q' }
    pure pushed

  unfoldable pub assign_client_to_worker : ℕ → ℤ → ℤ → ℤ → M (App Q) (Unit {0})
  assign_client_to_worker thread_index socket id event_fd = do
    pushed ← push_listener_to_worker (get_concatenated_msg (accept_msg thread_index socket id))
    raise_if (not pushed || is_negative event_fd)
        (queue_exception "Failed to push new worker to queue")
    written ← os_call (write_event event_fd)
    raise_if (not written) (runtime_error "Failed to send event_fd")

  abbrev pub new_evfd : Option ℕ → M (App Q) ℤ
  new_evfd none = raise (runtime_error "eventfd error\n")
  new_evfd (some n) = pure (pos n)

  -- `emplace` on a slot that holds a worker ends the old one first.
  unfoldable pub emplace_new_worker : ℤ → ℤ → ℕ → ℤ → M (App Q) (Unit {0})
  emplace_new_worker socket id nr_thr listener_evfd = do
    r ← os_call eventfd
    evfd ← new_evfd r
    launched ← gets λ s. s.manager.nr_of_launched_threads
    i ← worker_slot (pos launched)
    os_call (note (spawned nr_thr socket id evfd))
    ws ← workers
    join_old i (occupant ws i)
    put_worker i (some (record { nr_clients = 0; evfd = evfd }))
    add_client nr_thr
    on_manager λ m. record m { nr_of_launched_threads = suc m.nr_of_launched_threads }

  abbrev pub add_and_assign : ℕ → ℤ → ℤ → M (App Q) (Unit {0})
  add_and_assign i socket id = do
    add_client i
    w ← worker_at i
    assign_client_to_worker i socket id w.evfd

  -- All threads are launched and full: the limit grows by one, also when the call then fails.
  abbrev pub grow_and_assign : ℕ → ℤ → ℤ → M (App Q) (Unit {0})
  grow_and_assign i socket id = do
    on_manager λ m. record m { max_clients_per_thread = suc m.max_clients_per_thread }
    limit ← gets λ s. s.manager.max_clients_per_thread
    raise_if (ltb max_clients_per_thread limit)
        (server_full_exception "Server full, all threads are occupied!\n")
    add_and_assign i socket id

  abbrev pub balance : Option ℕ → ℕ → ℤ → ℤ → ℤ → M (App Q) (Unit {0})
  balance none min socket id listener_evfd = emplace_new_worker socket id 0 listener_evfd
  balance (some min_idx) min socket id listener_evfd = do
    limit ← gets λ s. s.manager.max_clients_per_thread
    launched ← gets λ s. s.manager.nr_of_launched_threads
    if ltb min limit
        then add_and_assign min_idx socket id
        else if launched == max_nr_of_threads
        then grow_and_assign min_idx socket id
        else if leb max_nr_of_threads launched
        then raise (server_full_exception "Server full, can't launch more new workers!\n")
        else emplace_new_worker socket id launched listener_evfd

  unfoldable pub process_new_client : ℤ → ℤ → ℤ → M (App Q) (Unit {0})
  unfolding emplace_new_worker assign_client_to_worker
  process_new_client socket id listener_evfd = do
    launched ← gets λ s. s.manager.nr_of_launched_threads
    ws ← workers
    let (min, min_idx) = get_min_and_idx ws
    if launched == 0
        then emplace_new_worker socket id 0 listener_evfd
        else balance min_idx min socket id listener_evfd

  unfoldable pub worker_push : ServerMessage → ℤ → M (App Q) (Unit {0})
  worker_push server_msg listener_evfd = do
    raise_if (is_negative listener_evfd) (runtime_error "Server listener event fd is invalid!\n")
    pushed ← push_worker_to_listener (get_concatenated_msg server_msg)
    raise_if (not pushed) (queue_exception "Failed to push disconnect client msg to Queue!\n")
    written ← os_call (write_event listener_evfd)
    raise_if (not written) (runtime_error "Failed to send to listener eventfd\n")

  abbrev pub push_to : ℕ → Bytes → M (App Q) (Unit {0})
  push_to i text = do
    c ← client_at i
    let (pushed, q) = queue.try_push c.send_queue text
    on_server (put_client i (record c { send_queue = q }))
    raise_if (not pushed) (queue_exception "Failed to push message to corresponding client\n")

  abbrev pub push_if : Option ℕ → Bytes → M (App Q) (Unit {0})
  push_if none text = skip
  push_if (some i) text = push_to i text

  abbrev pub unicast_one : ℤ → Bytes → ℤ → M (App Q) (Unit {0})
  unicast_one excepted_id text id =
      if int_eq excepted_id id then skip else get_client_ref id >>= λ ref. push_if ref text

  unfoldable pub unicast_repeated : ℤ → List ℤ → Bytes → M (App Q) (Unit {0})
  unfolding get_client_ref
  unicast_repeated excepted_id [] text = skip
  unicast_repeated excepted_id (id ∷ ids) text =
      unicast_one excepted_id text id >> unicast_repeated excepted_id ids text
