-- ===== src/Client/Calls.antt =====
-- src/Client/Client.cpp, lines 35 to 161: sending, receiving, and what a message does.
use chat_app.Common.{
  bind, ℕ, true, not, Option, none, some, ◌==◌, if◌then◌else◌, ℤ, pos, is_negative, length, M, ok,
  pure, raise, gets, lift, catch, ◌>>=◌, ◌>>◌, raise_if, when, skip, Exception, runtime_error,
  bit_and, bit_or,
}
use chat_app.Text.{Bytes, bytes_eq, is_empty}
use chat_app.Text.Decimal.{stoi}
use chat_app.Message.{
  ServerMessage, empty_msg, get_concatenated_msg, construct_from_string, reset_msg,
}
use chat_app.Resources.{
  Actions, quit_msg, get_color, color_end, endl, what, cerr_out_err, Shown, nothing, on_cout,
  on_cerr, stdout_formatted_msg,
}
use chat_app.Frame.{clear_msg, overlay, c_string}
use chat_app.Kernel.{
  Kernel, send, recv, close, print, print_err, get_flags, set_flags, write_event, read_line,
}
use chat_app.Client.{
  Process, os_call, on_client, set_msg, set_frame, request_stop, is_sent, is_action, done_msg,
  leave_msg, chat_msg,
}

module _ ⦃os : Kernel⦄ where
  -- The destructor.
  unfoldable pub destroy_client : M Process (Unit {0})
  destroy_client = do
    c ← gets λ s. s.client
    os_call (close c.cl_socket)
    on_client λ c'. record c' { cl_socket = pos 0 }
    os_call (print (endl color_end))

  unfoldable pub send_msg : Bytes → M Process (Unit {0})
  send_msg text = do
    c ← gets λ s. s.client
    if is_negative c.cl_socket then raise (runtime_error "The socket is not initialized\n") else (do
      r ← os_call (send c.cl_socket text)
      raise_if (not (is_sent r)) (runtime_error "Failed to send msg\n"))

  abbrev pub received : ℤ → Option Bytes → M Process ℕ
  received fd none = do
    blocked ← os_call (λ t. (ok (os.recv_would_block t fd), t))
    if blocked then pure 0 else raise (runtime_error "Failed read\n")
  received fd (some bytes) = do
    f ← gets λ s. s.frame
    set_frame (overlay bytes f)
    pure (length bytes)

  unfoldable pub receive_msg : M Process ℕ
  receive_msg = do
    c ← gets λ s. s.client
    f ← gets λ s. s.frame
    raise_if (is_negative c.cl_socket) (runtime_error "The socket is not initialized\n")
    r ← os_call (recv c.cl_socket f.msg_len)
    received c.cl_socket r

  abbrev pub with_flags : ℤ → Option ℕ → M Process (Unit {0})
  with_flags fd none = skip
  with_flags fd (some flags) =
      if bit_and flags 2048 == 2048
      then skip
      else os_call (set_flags fd (bit_or flags 2048)) >>= λ _. skip

  -- A failing F_GETFL gives -1, in which every flag is set.
  unfoldable pub make_cl_socket_nonblocking : M Process (Unit {0})
  make_cl_socket_nonblocking = do
    c ← gets λ s. s.client
    if is_negative c.cl_socket
        then skip
        else os_call (get_flags c.cl_socket) >>= with_flags c.cl_socket

  abbrev pub on_line : Bytes → M Process (Unit {0})
  on_line buffer = do
    s ← gets λ s. s
    if bytes_eq buffer quit_msg
        then (do
          request_stop
          set_msg (leave_msg s.msg s.client)
          send_msg (get_concatenated_msg (leave_msg s.msg s.client)))
        else when (not (is_empty buffer)) (do
          set_msg (chat_msg s.msg s.client buffer)
          send_msg (get_concatenated_msg (chat_msg s.msg s.client buffer)))

  abbrev pub on_input : Option Bytes → M Process (Unit {0})
  on_input none = skip
  on_input (some buffer) = on_line buffer

  abbrev pub reported : Exception → M Process (Unit {0})
  reported e = os_call (print_err (cerr_out_err (what e)))

  unfoldable pub send_msg_from_stdin : M Process (Unit {0})
  unfolding send_msg
  send_msg_from_stdin =
      catch (do line ← os_call read_line; on_input line; m ← gets λ s. s.msg; set_msg (reset_msg m))
        reported

  unfoldable pub update_color : ℤ → M Process (Unit {0})
  update_color color_id = do
    os_call (print (endl color_end))
    on_client λ c. record c { color_id = color_id }
    col ← lift (get_color color_id)
    os_call (print (endl col))

  unfoldable pub finalize_init : ServerMessage → M Process (Unit {0})
  unfolding update_color send_msg
  finalize_init msg = when (is_action msg Actions.init_req) (do
    color_id ← lift (stoi msg.color_id)
    update_color color_id
    on_client λ c. record c { id = msg.id; init_done = true }
    send_msg (get_concatenated_msg done_msg))

  -- The server has closed the connection: both loops are told.
  abbrev pub server_closed : M Process (Unit {0})
  server_closed = do
    request_stop
    c ← gets λ s. s.client
    written ← os_call (write_event c.cl_event_fd)
    raise_if (not written) (runtime_error "Failed to write to event fd to wake up send loop\n")

  abbrev pub clear_frame : M Process (Unit {0})
  clear_frame = gets (λ s. s.frame) >>= λ f. set_frame (clear_msg f)

  abbrev pub show : Shown → M Process (Unit {0})
  show nothing = skip
  show (on_cout text) = os_call (print text)
  show (on_cerr text) = os_call (print_err text)

  abbrev pub on_message : ServerMessage → M Process (Unit {0})
  on_message msg = do
    c ← gets λ s. s.client
    if c.init_done then lift (stdout_formatted_msg msg c.color_id) >>= show else finalize_init msg
    clear_frame

  abbrev pub on_received : M Process (Unit {0})
  on_received = do
    s ← gets λ s. s
    if s.client.init_req
        then lift (bind (c_string s.frame.msg) (construct_from_string empty_msg)) >>= on_message
        else skip

  unfoldable pub receive_msg_from_sv : M Process (Unit {0})
  unfolding receive_msg finalize_init
  receive_msg_from_sv =
      catch (do n ← receive_msg; if n == 0 then server_closed else on_received) reported
