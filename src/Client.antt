-- ===== src/Client.antt =====
-- include/Client/Client.h and src/Client/Client.cpp: the client process, its members and the
-- messages that it writes. What it does is in Client/Calls, its two loops are in Client/Loops, its
-- constructor is in Client/Setup. Of std::cout only the prompt, the chat lines and the colours are
-- modelled.
pub mod Calls
pub mod Loops
pub mod Confirm
pub mod Typing
pub mod Receiving
pub mod Setup
pub mod Joining
pub mod Dialogue
pub mod Speaking
pub mod Answering
pub mod Threads
pub mod Early
pub mod Full
use chat_app.Common.{
  ℕ, zero, suc, Bool, true, false, not, ◌&&◌, Option, none, some, ◌==◌, if◌then◌else◌, ℤ, pos,
  is_negative, length, M, ok, pure, raise, gets, modify, lift, catch, ◌>>=◌, ◌>>◌, raise_if, when,
  skip, Exception, runtime_error, bit_and, bit_or,
}
use chat_app.Text.{Bytes, bytes_eq, is_empty, until_zero}
use chat_app.Text.Decimal.{stoi, to_string}
use chat_app.Message.{
  ServerMessage, empty_msg, get_concatenated_msg, construct_from_string, reset_msg,
}
use chat_app.Resources.{
  Actions, get_action, quit_msg, name_uninitialized, id_uninitialized, get_color, color_end,
  stdout_formatted_msg,
}
use chat_app.Frame.{MessageFrame, clear_msg, overlay, c_string}
use chat_app.Kernel.{
  Kernel, Trace, send, recv, close, print, get_flags, set_flags, write_event, read_line,
}
use chat_app.Epoll.{EpollManager, new_epoll, add_monitored_fd, wait_events, check_event, epollin}

pub record Client : Type 0 where
  pub is_initialized_flag : Bool
  pub cl_event_fd : ℤ
  pub name : Bytes
  pub color_id : ℤ
  pub id : Bytes
  pub init_req : Bool
  pub init_done : Bool
  pub cl_socket : ℤ
  pub done : Bool

-- The client, the locals that its loops hand to the member functions by reference, and the calls.
pub record Process : Type 0 where
  pub client : Client
  pub frame : MessageFrame
  pub msg : ServerMessage
  pub trace : Trace

unfoldable pub os_call : {A : Type 0} → M Trace A → M Process A
os_call m s = let (r, t) = m s.trace in (r, record s { trace = t })

abbrev pub on_client : (Client → Client) → M Process (Unit {0})
on_client f = modify λ s. record s { client = f s.client }

abbrev pub set_msg : ServerMessage → M Process (Unit {0})
set_msg m = modify λ s. record s { msg = m }

abbrev pub set_frame : MessageFrame → M Process (Unit {0})
set_frame f = modify λ s. record s { frame = f }

abbrev pub request_stop : M Process (Unit {0})
request_stop = on_client λ c. record c { done = true }

-- The accessors.
unfoldable pub get_cl_socket : Client → ℤ
get_cl_socket c = c.cl_socket

unfoldable pub check_init : Client → Bool
check_init c = c.is_initialized_flag

unfoldable pub set_init : Client → Client
set_init c = record c { is_initialized_flag = true }

-- `set_name` and `set_id` assign from a `const char *`.
unfoldable pub set_name : Client → Bytes → Client
set_name c name = record c { name = until_zero name }

unfoldable pub get_name : Client → Bytes
get_name c = if is_empty c.name then name_uninitialized else c.name

unfoldable pub set_id : Client → Bytes → Client
set_id c id = record c { id = until_zero id }

unfoldable pub get_id : Client → Bytes
get_id c = if is_empty c.id then id_uninitialized else c.id

unfoldable pub is_initialized : Client → Bool
is_initialized c = not (is_empty c.id) && not (is_empty c.name)

abbrev pub is_sent : Option ℕ → Bool
is_sent none = false
is_sent (some _) = true

abbrev pub is_action : ServerMessage → Actions → Bool
is_action msg a = bytes_eq msg.action (get_action a)

-- The answer that ends the handshake.
abbrev pub done_msg : ServerMessage
done_msg = record empty_msg { action = get_action Actions.init_done }

-- The first message of a client.
abbrev pub request_msg : ServerMessage → Client → ServerMessage
request_msg msg c = record msg {
  action = get_action Actions.init_req;
  name = c.name;
  color_id = to_string c.color_id;
}

abbrev pub leave_msg : ServerMessage → Client → ServerMessage
leave_msg msg c = record msg {
  action = get_action Actions.cl_disconnected;
  name = c.name;
  id = c.id;
}

abbrev pub chat_msg : ServerMessage → Client → Bytes → ServerMessage
chat_msg msg c buffer = record msg {
  action = get_action Actions.unicast_repeated;
  name = c.name;
  id = c.id;
  color_id = to_string c.color_id;
  msg_content = buffer;
}
