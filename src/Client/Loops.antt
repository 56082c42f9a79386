-- ===== src/Client/Loops.antt =====
-- src/Client/Client.cpp, lines 203 to 246: the sending and the receiving loop of the client.
use chat_app.Common.{
  ℕ, zero, suc, Bool, true, false, not, if◌then◌else◌, pos, M, pure, gets, lift, ◌>>=◌, ◌>>◌, when,
}
use chat_app.Text.{is_empty}
use chat_app.Message.{get_concatenated_msg, reset_msg}
use chat_app.Kernel.{Kernel}
use chat_app.Epoll.{
  EpollManager, new_epoll, destroy_epoll, add_monitored_fd, wait_events, check_event, epollin,
}
use chat_app.Client.{Process, os_call, on_client, set_msg, request_msg}
use chat_app.Client.Calls.{send_msg, send_msg_from_stdin, receive_msg_from_sv}

module _ ⦃os : Kernel⦄ where
  -- One round of the sending loop.
  abbrev pub first_request : M Process (Unit {0})
  first_request = do
    s ← gets λ s. s
    when (not (is_empty s.client.name)) (do
      set_msg (request_msg s.msg s.client)
      send_msg (get_concatenated_msg (request_msg s.msg s.client))
      on_client λ c. record c { init_req = true })

  abbrev pub poll_stdin : EpollManager → M Process EpollManager
  poll_stdin em = do
    waited ← os_call (wait_events em)
    typed ← lift (check_event waited.1 (pos 0) epollin waited.0)
    when typed (do send_msg_from_stdin; m ← gets λ s. s.msg; set_msg (reset_msg m))
    pure waited.1

  unfoldable pub send_round : EpollManager → M Process EpollManager
  unfolding send_msg send_msg_from_stdin
  send_round em = do
    s ← gets λ s. s
    if s.client.init_req then poll_stdin em else (first_request >> pure em)

  unfoldable pub receive_round : EpollManager → M Process EpollManager
  unfolding receive_msg_from_sv
  receive_round em = do
    waited ← os_call (wait_events em)
    c ← gets λ s. s.client
    ready ← lift (check_event waited.1 c.cl_socket epollin waited.0)
    when ready receive_msg_from_sv
    pure waited.1

  -- A loop, for as many rounds as there is fuel: it waits for the outside world, so no number is
  -- enough. True is returned where it has ended by its test.
  abbrev pub rounds : (EpollManager → M Process EpollManager) → ℕ → EpollManager → M Process Bool
  rounds round zero em = pure false
  rounds round (suc fuel) em = do
    c ← gets λ s. s.client
    elim c.done [ true ↦ pure true | false ↦ round em >>= λ em'. rounds round fuel em' ]

  -- Where a loop ends, the destructor of its EpollManager runs. An exception ends the process.
  unfoldable pub start_send_loop : ℕ → M Process Bool
  unfolding send_round
  start_send_loop fuel = do
    em ← os_call new_epoll
    os_call (add_monitored_fd em (record { fd = pos 0; event = epollin }))
    c ← gets λ s. s.client
    os_call (add_monitored_fd em (record { fd = c.cl_event_fd; event = epollin }))
    ended ← rounds send_round fuel em
    when ended (os_call (destroy_epoll em))
    pure ended

  unfoldable pub start_receive_loop : ℕ → M Process Bool
  unfolding receive_round
  start_receive_loop fuel = do
    em ← os_call new_epoll
    c ← gets λ s. s.client
    os_call (add_monitored_fd em (record { fd = c.cl_socket; event = epollin }))
    ended ← rounds receive_round fuel em
    when ended (os_call (destroy_epoll em))
    pure ended
