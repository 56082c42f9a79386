-- ===== src/Listener.antt =====
-- include/Server/ServerThreadManager.h: what the listener does with a message from a worker, and
-- the rounds of its loop. The text that it logs on std::cout is not modelled.
pub mod Farewell
pub mod Repeating
use chat_app.Common.{
  ℕ, zero, suc, Bool, true, false, List, [], ◌∷◌, ◌++◌, Option, none, some, ◌==◌, if◌then◌else◌, ℤ,
  pos, negsuc, minus_one, scoped, M, ok, pure, raise, lift, catch, ◌>>=◌, ◌>>◌, raise_if, when,
  skip, Exception, runtime_error, server_full_exception, thread_managing_exception, queue_exception,
}
use chat_app.Text.{Bytes, codes, bytes_eq}
use chat_app.Text.Decimal.{stoi}
use chat_app.Message.{ServerMessage, empty_msg, get_concatenated_msg, construct_from_string}
use chat_app.Resources.{
  Actions, get_action, server_name, quit_msg, what, cerr_out_err, cerr_out_warning, clog_out_notif,
}
use chat_app.Kernel.{
  Kernel, EventRead, counter, would_block, bad, read_event, eventfd, read_line, note, print_err,
  listener_spawned,
}
use chat_app.Epoll.{
  EpollManager, new_epoll, destroy_epoll, add_monitored_fd, wait_events, check_event, epollin,
}
use chat_app.Queues.{StringQueue}
use chat_app.State.{Worker, Manager, App, occupant, os_call}
use chat_app.Server.{
  get_connected_ids, disconnect_client, accept_client, check_is_done, set_is_done, get_sv_socket,
}
use chat_app.Manager.{
  workers, worker_slot, worker_client_disconnect, unicast_repeated, process_new_client, new_evfd,
  push_worker_to_listener,
}

abbrev pub is_action : ServerMessage → Actions → Bool
is_action msg a = bytes_eq msg.action (get_action a)

-- What the other clients are told when a client leaves.
abbrev pub farewell : ServerMessage → ServerMessage
farewell msg = record msg {
  action = get_action Actions.unicast_repeated;
  msg_content = msg.name ++ codes " Has just left!";
  name = server_name;
}

-- `try_pop`: the text, and the manager with the rest of the queue.
abbrev pub pop_worker_to_listener :
    {Q : Type 0} → StringQueue Q → Manager Q → Option (Bytes × Manager Q)
pop_worker_to_listener queue m = elim (queue.try_pop m.q_worker_to_listener) [
  | none ↦ none
  | some (text, q) ↦ some (text, record m { q_worker_to_listener = q })
]

-- `ret <= 0`
abbrev pub no_event : ℤ → Bool
no_event (pos n) = n == 0
no_event (negsuc _) = true

module _ {Q : Type 0} ⦃queue : StringQueue Q⦄ ⦃os : Kernel⦄ where
  -- The worker must run and have a client, or the message makes no sense.
  abbrev pub check_worker : Option Worker → M (App Q) (Unit {0})
  check_worker none =
      raise (thread_managing_exception "Can't disconnect a client from an empty optional\n")
  check_worker (some w) =
      raise_if (w.nr_clients == 0)
        (thread_managing_exception "Can't disconnect a client from a thread with 0 clients\n")

  unfoldable pub client_disconnected : ServerMessage → List ℤ → M (App Q) (Unit {0})
  unfolding disconnect_client worker_client_disconnect
  client_disconnected msg populated_ids = do
    id ← lift (stoi msg.id)
    disconnect_client id
    thread_number ← lift (stoi msg.thread_number)
    i ← worker_slot thread_number
    ws ← workers
    check_worker (occupant ws i)
    unicast_repeated id populated_ids (get_concatenated_msg (farewell msg))
    worker_client_disconnect thread_number

  abbrev pub repeat_message : ServerMessage → List ℤ → Bytes → M (App Q) (Unit {0})
  repeat_message msg populated_ids text =
      lift (stoi msg.id) >>= λ id. unicast_repeated id populated_ids text

  abbrev pub dispatch : ServerMessage → List ℤ → Bytes → M (App Q) (Unit {0})
  dispatch msg populated_ids recv_message =
      if is_action msg Actions.cl_disconnected
      then client_disconnected msg populated_ids
      else if is_action msg Actions.unicast_repeated
      then repeat_message msg populated_ids recv_message
      else if is_action msg Actions.sv_disconnected
      then unicast_repeated minus_one populated_ids recv_message
      else if is_action msg Actions.init_done
      then repeat_message msg populated_ids
          (get_concatenated_msg (record msg { action = get_action Actions.unicast_repeated }))
      else skip

  -- With nobody connected the message is dropped.
  abbrev pub deliver : Bytes → M (App Q) (Unit {0})
  deliver recv_message = do
    msg ← lift (construct_from_string empty_msg recv_message)
    populated_ids ← get_connected_ids
    elim populated_ids [ [] ↦ skip | id ∷ ids ↦ dispatch msg (id ∷ ids) recv_message ]

  abbrev pub pop_and_deliver : M (App Q) (Unit {0})
  pop_and_deliver s = elim (pop_worker_to_listener queue s.manager) [
    | none ↦ (ok tt, s)
    | some (text, m) ↦ deliver text (record s { manager = m })
  ]

  abbrev pub on_read : EventRead → M (App Q) (Unit {0})
  on_read counter = pop_and_deliver
  on_read would_block = skip
  on_read bad = raise (runtime_error "Failed read on listener evfd\n")

  unfoldable pub listener_process_worker_to_listener_q : ℤ → M (App Q) (Unit {0})
  unfolding client_disconnected unicast_repeated get_connected_ids
  listener_process_worker_to_listener_q listener_evfd = do
    r ← os_call (read_event listener_evfd)
    on_read r

  -- A line from the console: only the quit message counts.
  abbrev pub quit_server : Option Bytes → M (App Q) (Unit {0})
  quit_server none = skip
  quit_server (some buffer) =
      if bytes_eq buffer quit_msg
      then (do
        set_is_done
        push_worker_to_listener (
            get_concatenated_msg (record empty_msg {
              action = get_action Actions.sv_disconnected;
              msg_content = codes "SERVER DISCONNECTED";
            }))
        skip)
      else skip

  abbrev pub report : Bytes → M (App Q) (Unit {0})
  report text = os_call (print_err text)

  -- Only an exception of another class ends the server.
  abbrev pub on_accept_error : Exception → M (App Q) (Unit {0})
  on_accept_error (server_full_exception text) = report (clog_out_notif (codes text))
  on_accept_error (thread_managing_exception text) = report (cerr_out_warning (codes text))
  on_accept_error e = do
    report (cerr_out_err (what e))
    report (cerr_out_err (codes "Error is critical, closing.."))
    set_is_done

  unfoldable pub accept_new_client : ℤ → M (App Q) (Unit {0})
  unfolding accept_client process_new_client set_is_done
  accept_new_client evfd =
      catch (do socket_id ← accept_client true; process_new_client socket_id.0 socket_id.1 evfd)
        on_accept_error

  -- One round of the loop, after `wait_events` reported `ret` events.
  unfoldable pub listener_round : EpollManager → ℤ → ℤ → ℤ → M (App Q) (Unit {0})
  unfolding listener_process_worker_to_listener_q set_is_done accept_new_client
  listener_round em ret sv_socket evfd = do
    woken ← lift (check_event em evfd epollin ret)
    when woken (listener_process_worker_to_listener_q evfd)
    typed ← lift (check_event em (pos 0) epollin ret)
    when typed (os_call read_line >>= quit_server)
    connecting ← lift (check_event em sv_socket epollin ret)
    when connecting (accept_new_client evfd)

  abbrev pub maybe_round : EpollManager → ℤ → ℤ → ℤ → M (App Q) (Unit {0})
  maybe_round em ret sv_socket evfd =
      if no_event ret then skip else listener_round em ret sv_socket evfd

  -- The loop, for as many rounds as there is fuel: it waits for events of the outside world, so no
  -- number of rounds is enough. True is returned where the loop has ended by its test.
  unfoldable pub listener_rounds : ℕ → EpollManager → ℤ → ℤ → M (App Q) Bool
  unfolding listener_round check_is_done
  listener_rounds zero em sv_socket evfd = pure false
  listener_rounds (suc fuel) em sv_socket evfd = do
    done ← check_is_done
    elim done [
      | true ↦ pure true
      | false ↦ (do
        waited ← os_call (wait_events em)
        maybe_round waited.1 waited.0 sv_socket evfd
        listener_rounds fuel waited.1 sv_socket evfd)
    ]

  -- The handlers around the loop only report; the listener thread then ends.
  abbrev pub on_listener_error : Exception → M (App Q) Bool
  on_listener_error (queue_exception text) = report (cerr_out_warning (codes text)) >> pure true
  on_listener_error e = report (cerr_out_err (what e)) >> pure true

  unfoldable pub listener_loop : ℕ → M (App Q) Bool
  unfolding listener_rounds get_sv_socket
  listener_loop fuel =
      catch
        (do
          em ← os_call new_epoll
          scoped (os_call (destroy_epoll em)) (do
            sv_socket ← get_sv_socket
            r ← os_call eventfd
            evfd ← new_evfd r
            os_call (add_monitored_fd em (record { fd = pos 0; event = epollin }))
            os_call (add_monitored_fd em (record { fd = sv_socket; event = epollin }))
            os_call (add_monitored_fd em (record { fd = evfd; event = epollin }))
            listener_rounds fuel em sv_socket evfd))
        on_listener_error

  -- The thread that is started is waited for at once: the value that holds it is not kept.
  unfoldable pub launch_listener_loop : ℕ → M (App Q) Bool
  unfolding listener_loop
  launch_listener_loop fuel = do os_call (note listener_spawned); listener_loop fuel
