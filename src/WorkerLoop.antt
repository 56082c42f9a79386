-- ===== src/WorkerLoop.antt =====
-- include/Server/ServerThreadManager.h: the loop of a worker thread, which serves the sockets of
-- its own clients and takes over new ones. Texts logged on std::cout are not modelled.
pub mod TakeOver
pub mod Removal
pub mod Forwarding
use chat_app.Common.{
  bind, ℕ, zero, suc, Bool, true, false, not, ◌||◌, List, [], ◌∷◌, ◌++◌, Option, none, some, ◌==◌,
  if◌then◌else◌, ℤ, pos, int_eq, is_negative, M, ok, pure, raise, deref, lift, ◌>>=◌, ◌>>◌,
  raise_if, when, runtime_error, queue_exception, client_connection_exception,
}
use chat_app.Text.{Bytes, bytes_eq}
use chat_app.Text.Decimal.{to_string, stoi}
use chat_app.Message.{ServerMessage, empty_msg, construct_from_string}
use chat_app.Resources.{Actions, get_action, disconnect_state, max_len, queue_size}
use chat_app.Frame.{MessageFrame, clear_msg, c_string}
use chat_app.Kernel.{Kernel, EventRead, counter, would_block, bad, read_event}
use chat_app.Epoll.{
  EpollManager, new_epoll, destroy_epoll, add_monitored_fd, wait_events, check_event, epollin,
  epollout,
}
use chat_app.Queues.{StringQueue}
use chat_app.State.{ClientData, Manager, App, os_call, client_at, update_at, set_state, get_state}
use chat_app.Server.{get_client_ref, receive_msg, check_is_done}
use chat_app.Manager.{push_listener_to_worker, worker_push}
use chat_app.Listener.{is_action, no_event}
use chat_app.Handshake.{process_client_state}

-- The socket and identifier of a client that the worker serves.
abbrev pub Served : Type 0
Served = ℤ × ℤ

-- What came from the listener: the ACCEPT action with a socket and identifier, or (-1, -1, -1).
abbrev pub Request : Type 0
Request = Option Served

abbrev pub has_none : List Served → Bool
has_none [] = true
has_none (_ ∷ _) = false

-- The local variables of a round.
pub record Locals : Type 0 where
  pub frame : MessageFrame
  pub msg : ServerMessage

abbrev pub pop_listener_to_worker :
    {Q : Type 0} → StringQueue Q → Manager Q → Option (Bytes × Manager Q)
pop_listener_to_worker queue m = elim (queue.try_pop m.q_listener_to_worker) [
  | none ↦ none
  | some (text, q) ↦ some (text, record m { q_listener_to_worker = q })
]

module _ {Q : Type 0} ⦃queue : StringQueue Q⦄ ⦃os : Kernel⦄ where
  abbrev pub take_over : EpollManager → ServerMessage → M (App Q) Request
  take_over em msg = do
    tmp_fd ← lift (stoi msg.fd)
    tmp_id ← lift (stoi msg.id)
    os_call (add_monitored_fd em (record { fd = tmp_fd; event = 5 }))
    pure (some (tmp_fd, tmp_id))

  -- An ACCEPT for another worker is dropped; any other message is put back.
  abbrev pub take_request : EpollManager → ℕ → Bytes → M (App Q) Request
  take_request em personal_index text = do
    msg ← lift (construct_from_string empty_msg text)
    if is_action msg Actions.accept
        then (if bytes_eq msg.thread_number (to_string (pos personal_index))
            then take_over em msg
            else pure none)
        else (do
          pushed ← push_listener_to_worker text
          raise_if (not pushed) (queue_exception "Failed to put back rejected message\n")
          pure none)

  abbrev pub pop_request : EpollManager → ℕ → M (App Q) Request
  pop_request em personal_index s = elim (pop_listener_to_worker queue s.manager) [
    | none ↦ (ok none, s)
    | some (text, m) ↦ take_request em personal_index text (record s { manager = m })
  ]

  abbrev pub on_wake_up : EventRead → EpollManager → ℕ → M (App Q) Request
  on_wake_up counter em personal_index = pop_request em personal_index
  on_wake_up would_block em personal_index = pure none
  on_wake_up bad em personal_index = raise (runtime_error "Failed read on personal thread evfd\n")

  unfoldable pub worker_process_listener_to_worker_q : EpollManager → ℕ → ℤ → M (App Q) Request
  worker_process_listener_to_worker_q em personal_index personal_evfd = do
    r ← os_call (read_event personal_evfd)
    on_wake_up r em personal_index

  -- A null read: the client has closed its end.
  abbrev pub mark_closed : ℤ → M (App Q) (Unit {0})
  mark_closed id = do
    ref ← get_client_ref id
    i ← deref ref
    update_at i λ c. set_state c disconnect_state

  -- `process_client_state` through a reference that may be empty.
  abbrev pub process_ref : ℕ → Bool → ServerMessage → Option ℕ → ℤ → M (App Q) ServerMessage
  process_ref fuel input msg ref listener_evfd =
      deref ref >>= λ i. process_client_state fuel input msg i listener_evfd

  -- The EPOLLIN part; false where it ends with `continue`.
  abbrev pub read_client : Served → Option ℕ → Locals → ℤ → M (App Q) (Bool × Locals)
  read_client client ref l listener_evfd = do
    received ← receive_msg l.frame client.1
    if received.0 == 0
        then (mark_closed client.1 >> pure (false, record l { frame = received.1 }))
        else elim ref [
          | none ↦ pure (false, record l { frame = received.1 })
          | some i ↦ (do
            msg ← lift (bind (c_string received.1.msg) (construct_from_string l.msg))
            msg' ← process_client_state 0 true msg i listener_evfd
            pure (true, record { frame = clear_msg received.1; msg = msg' }))
        ]

  abbrev pub write_client : ℕ → EpollManager → ℤ → Served → Option ℕ → Locals → ℤ → M (App Q) Locals
  write_client fuel em ret client ref l listener_evfd = do
    writable ← lift (check_event em client.0 epollout ret)
    if writable
        then (do
          msg ← process_ref fuel false l.msg ref listener_evfd
          pure (record l { msg = msg }))
        else pure l

  -- The body of the loop over the clients.
  unfoldable pub serve_client : ℕ → EpollManager → ℤ → ℤ → Locals → Served → M (App Q) Locals
  unfolding process_client_state
  serve_client fuel em ret listener_evfd l client = do
    ref ← get_client_ref client.1
    readable ← lift (check_event em client.0 epollin ret)
    r ← (if readable then read_client client ref l listener_evfd else pure (true, l))
    if r.0 then write_client fuel em ret client ref r.1 listener_evfd else pure r.1

  unfoldable pub serve_clients : ℕ → EpollManager → ℤ → ℤ → List Served → Locals → M (App Q) Locals
  unfolding serve_client
  serve_clients fuel em ret listener_evfd [] l = pure l
  serve_clients fuel em ret listener_evfd (client ∷ clients) l =
      serve_client fuel em ret listener_evfd l client >>= λ l'.
      serve_clients fuel em ret listener_evfd clients l'

  abbrev pub leave_msg : ServerMessage → ClientData Q → ℕ → ℤ → ServerMessage
  leave_msg msg cl personal_index id = record msg {
    action = get_action Actions.cl_disconnected;
    name = cl.name;
    thread_number = to_string (pos personal_index);
    id = to_string id;
    color_id = to_string cl.color_id;
  }

  abbrev pub served_data : Served → M (App Q) (ClientData Q)
  served_data client = get_client_ref client.1 >>= λ ref. deref ref >>= λ i. client_at i

  -- The predicate of `remove_if`: whether the client left, after telling the listener.
  abbrev pub signal_disconnect : ℕ → ℤ → Served → ServerMessage → M (App Q) (Bool × ServerMessage)
  signal_disconnect personal_index listener_evfd client msg = do
    cl ← served_data client
    if int_eq (get_state cl) disconnect_state
        then (do
          worker_push (leave_msg msg cl personal_index client.1) listener_evfd
          pure (true, leave_msg msg cl personal_index client.1))
        else pure (false, msg)

  -- `erase(remove_if(...))`: the clients that stay, in order.
  unfoldable pub remove_disconnected :
      ℕ → ℤ → List Served → ServerMessage → M (App Q) (List Served × ServerMessage)
  unfolding worker_push get_state
  remove_disconnected personal_index listener_evfd [] msg = pure ([], msg)
  remove_disconnected personal_index listener_evfd (client ∷ clients) msg = do
    r ← signal_disconnect personal_index listener_evfd client msg
    rest ← remove_disconnected personal_index listener_evfd clients r.1
    pure ((if r.0 then rest.0 else client ∷ rest.0), rest.1)

  abbrev pub join_request : List Served → Request → M (App Q) (List Served)
  join_request clients none = pure clients
  join_request clients (some new) =
      if is_negative new.0 || is_negative new.1
      then raise (client_connection_exception "Invalid client socket or id\n")
      else pure (clients ++ new ∷ [])

  -- One round, after `wait_events` reported `ret` events.
  unfoldable pub worker_round :
      ℕ → EpollManager → ℤ → ℕ → ℤ → ℤ → List Served → Locals → M (App Q) (List Served × Locals)
  unfolding worker_process_listener_to_worker_q serve_clients remove_disconnected
  worker_round fuel em ret personal_index personal_evfd listener_evfd clients l = do
    woken ← lift (check_event em personal_evfd epollin ret)
    request ←
        (if woken
          then worker_process_listener_to_worker_q em personal_index personal_evfd
          else pure none)
    served ← serve_clients fuel em ret listener_evfd clients l
    kept ← remove_disconnected personal_index listener_evfd clients served.msg
    clients' ← join_request kept.0 request
    pure (clients', record served { msg = kept.1 })

  abbrev pub maybe_worker_round :
      ℕ → EpollManager → ℤ → ℕ → ℤ → ℤ → List Served → Locals → M (App Q) (List Served × Locals)
  maybe_worker_round fuel em ret personal_index personal_evfd listener_evfd clients l =
      if no_event ret
      then pure (clients, l)
      else worker_round fuel em ret personal_index personal_evfd listener_evfd clients l

  -- The loop, for as many rounds as there is fuel: it waits for the outside world, so no number is
  -- enough. True is returned where the loop has ended by its test.
  unfoldable pub worker_rounds :
      ℕ → EpollManager → ℕ → ℤ → ℤ → List Served → Locals → M (App Q) Bool
  unfolding worker_round check_is_done
  worker_rounds zero em personal_index personal_evfd listener_evfd clients l = pure false
  worker_rounds (suc fuel) em personal_index personal_evfd listener_evfd clients l = do
    done ← check_is_done
    elim (has_none clients || done) [
      | true ↦ pure true
      | false ↦ (do
        waited ← os_call (wait_events em)
        next ←
            maybe_worker_round queue_size waited.1 waited.0 personal_index personal_evfd
              listener_evfd clients l
        worker_rounds fuel waited.1 personal_index personal_evfd listener_evfd next.0 next.1)
    ]

  -- `first` is what the uninitialised frame holds at the start. Nothing catches an exception
  -- here, and it ends the process; where the loop ends, the destructor of the EpollManager runs.
  unfoldable pub worker_loop : ℕ → Bytes → ℤ → ℤ → ℕ → ℤ → ℤ → M (App Q) Bool
  unfolding worker_rounds
  worker_loop fuel first cl_fd cl_id personal_index personal_evfd listener_evfd = do
    em ← os_call new_epoll
    os_call (add_monitored_fd em (record { fd = cl_fd; event = 5 }))
    os_call (add_monitored_fd em (record { fd = personal_evfd; event = epollin }))
    ended ←
        worker_rounds fuel em personal_index personal_evfd listener_evfd ((cl_fd, cl_id) ∷ [])
          (record { frame = record { msg = first; msg_len = max_len }; msg = empty_msg })
    when ended (os_call (destroy_epoll em))
    pure ended
