-- ===== src/Handshake.antt =====
-- include/Server/ServerThreadManager.h, `process_client_state`: the states of one client, from the
-- first request to the open chat.
pub mod States
pub mod Moves
pub mod Draining
pub mod Progress
use chat_app.Common.{
  ℕ, zero, suc, Bool, ◌++◌, none, some, if◌then◌else◌, ℤ, int_eq, M, pure, ◌>>=◌, ◌>>◌, when, skip,
}
use chat_app.Text.{codes}
use chat_app.Text.Decimal.{to_string}
use chat_app.Message.{ServerMessage, get_concatenated_msg, reset_msg}
use chat_app.Resources.{
  Actions, get_action, server_name, disconnect_state, initial_state, requested_init,
  sent_init_confirmation, init_done_state,
}
use chat_app.Kernel.{Kernel}
use chat_app.Queues.{StringQueue}
use chat_app.State.{
  ClientData, App, client_at, put_client, on_server, update_at, inc_state, set_state, get_state,
}
use chat_app.Server.{send_msg}
use chat_app.Manager.{worker_push}
use chat_app.Listener.{is_action}

-- The greeting that a client gets when it is initialised.
abbrev pub hello_msg : {Q : Type 0} → ServerMessage → ClientData Q → ServerMessage
hello_msg msg cl = record msg {
  action = get_action Actions.unicast_repeated;
  name = server_name;
  id = to_string cl.personal_id;
  color_id = to_string cl.color_id;
  msg_content = codes "Hello " ++ (cl.name ++ codes ", now you can chat!");
}

-- What the others are told, through the listener.
abbrev pub connected_msg : {Q : Type 0} → ServerMessage → ClientData Q → ServerMessage
connected_msg msg cl = record (hello_msg msg cl) {
  action = get_action Actions.init_done;
  msg_content = cl.name ++ codes " Has Just Connected!";
}

abbrev pub confirmation_msg : {Q : Type 0} → ServerMessage → ClientData Q → ServerMessage
confirmation_msg msg cl = record msg {
  action = get_action Actions.init_req;
  name = cl.name;
  color_id = to_string cl.color_id;
  id = to_string cl.personal_id;
}

module _ {Q : Type 0} ⦃queue : StringQueue Q⦄ ⦃os : Kernel⦄ where
  -- `cl` is a reference: `i` is the slot that it refers to. The message, which the caller keeps, is
  -- returned.
  abbrev pub mark_disconnected : ℕ → ServerMessage → M (App Q) (Unit {0})
  mark_disconnected i msg =
      when (is_action msg Actions.cl_disconnected) (update_at i λ c. set_state c disconnect_state)

  abbrev pub in_initial_state : ℕ → ServerMessage → M (App Q) ServerMessage
  in_initial_state i msg = do
    when (is_action msg Actions.init_req)
        (do update_at i inc_state; update_at i λ c. record c { name = msg.name })
    pure (reset_msg msg)

  abbrev pub finish_init : ℕ → ServerMessage → ℤ → M (App Q) ServerMessage
  finish_init i msg listener_evfd = do
    update_at i inc_state
    cl ← client_at i
    send_msg (get_concatenated_msg (hello_msg msg cl)) cl.personal_id
    worker_push (connected_msg msg cl) listener_evfd
    pure (reset_msg msg)

  abbrev pub forward : ServerMessage → ℤ → M (App Q) ServerMessage
  forward msg listener_evfd = do worker_push msg listener_evfd; pure (reset_msg msg)

  abbrev pub on_input : ℕ → ℤ → ServerMessage → ℤ → M (App Q) ServerMessage
  on_input i state msg listener_evfd =
      if int_eq state initial_state
      then in_initial_state i msg
      else if int_eq state sent_init_confirmation
      then (if is_action msg Actions.init_done then finish_init i msg listener_evfd else pure msg)
      else if int_eq state init_done_state
      then (if is_action msg Actions.unicast_repeated then forward msg listener_evfd else pure msg)
      else pure msg

  -- `while (cl.send_queue.try_pop(send_msg)) isv.send_msg(...)`: other threads may push meanwhile,
  -- so the number of rounds is bounded by fuel; `rounds` is the fuel left.
  abbrev pub drain : ℕ → ℕ → M (App Q) (Unit {0})
  drain zero i = skip
  drain (suc fuel) i = do
    cl ← client_at i
    elim (queue.try_pop cl.send_queue) [
      | none ↦ skip
      | some (text, q) ↦ (do
        on_server (put_client i (record cl { send_queue = q }))
        send_msg text cl.personal_id
        drain fuel i)
    ]

  abbrev pub confirm_init : ℕ → ServerMessage → M (App Q) ServerMessage
  confirm_init i msg = do
    update_at i inc_state
    cl ← client_at i
    send_msg (get_concatenated_msg (confirmation_msg msg cl)) cl.personal_id
    pure (confirmation_msg msg cl)

  abbrev pub on_output : ℕ → ℕ → ℤ → ServerMessage → M (App Q) ServerMessage
  on_output fuel i state msg =
      if int_eq state requested_init
      then confirm_init i msg
      else if int_eq state init_done_state
      then drain fuel i >> pure msg
      else pure msg

  unfoldable pub process_client_state : ℕ → Bool → ServerMessage → ℕ → ℤ → M (App Q) ServerMessage
  unfolding inc_state set_state get_state reset_msg
  process_client_state fuel input msg i listener_evfd = do
    when input (mark_disconnected i msg)
    cl ← client_at i
    if input
        then on_input i (get_state cl) msg listener_evfd
        else on_output fuel i (get_state cl) msg
