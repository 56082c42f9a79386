-- ===== src/Server.antt =====
-- include/Server/Server.h: the server's table of clients and the calls of the IServer interface.
-- The constructors are in Server/Setup.
pub mod Invariant
pub mod Accept
pub mod Identifiers
pub mod Disconnect
pub mod Stopping
pub mod Sending
pub mod Setup
use chat_app.Common.{
  ℕ, ◌^◌, ◌-◌, Bool, true, false, not, List, [], ◌∷◌, Option, none, some, bit_or, bit_and, ◌==◌,
  if◌then◌else◌, ℤ, pos, minus_one, is_negative, add32, to_int32, length, M, pure, raise, gets,
  modify, ◌>>=◌, ◌>>◌, raise_if, when, skip, runtime_error,
}
use chat_app.Text.{Bytes}
use chat_app.Resources.{initial_state}
use chat_app.Frame.{MessageFrame, overlay}
use chat_app.Kernel.{Kernel, Accepted, send, recv, accept4, get_flags, set_flags, close, draw_color}
use chat_app.Queues.{StringQueue}
use chat_app.Slots.{free_slot, find_client, reset_client, connected_ids}
use chat_app.State.{ClientData, Server, App, os_call, on_server, client_at, put_client}

-- `O_NONBLOCK`
abbrev pub o_nonblock : ℕ
o_nonblock = 2048

-- `fetch_add(-1)` on a 32-bit pattern.
abbrev pub all_ones : ℕ
all_ones = 2 ^ 32 - 1

module _ {Q : Type 0} where
  unfoldable pub get_sv_socket : M (App Q) ℤ
  get_sv_socket = gets λ s. s.server.sv_socket

  unfoldable pub get_nr_of_connections : M (App Q) ℤ
  get_nr_of_connections = gets λ s. to_int32 s.server.nr_of_connections

  unfoldable pub get_connected_ids : M (App Q) (List ℤ)
  unfolding connected_ids
  get_connected_ids = gets λ s. connected_ids s.server.clients

  -- A reference is the index of its slot.
  unfoldable pub get_client_ref : ℤ → M (App Q) (Option ℕ)
  unfolding find_client
  get_client_ref cl_id = gets λ s. find_client cl_id s.server.clients

  unfoldable pub check_is_done : M (App Q) Bool
  check_is_done = gets λ s. s.server.done

  -- `request_stop` returns true only for the first request.
  unfoldable pub set_is_done : M (App Q) (Unit {0})
  set_is_done = do
    done ← gets λ s. s.server.done
    raise_if done (runtime_error "Server did not finish\n")
    on_server λ sv. record sv { done = true }

  abbrev pub available : Option ℕ → M (App Q) (ClientData Q)
  available none = raise (runtime_error "Client not available\n")
  available (some i) = client_at i

  unfoldable pub get_selected_client_fd : ℤ → M (App Q) ℤ
  unfolding get_client_ref
  get_selected_client_fd cl_id = do
    sv_socket ← gets λ s. s.server.sv_socket
    raise_if (is_negative sv_socket) (runtime_error "SV socket not initialized\n")
    selected ← get_client_ref cl_id
    client ← available selected
    raise_if (is_negative client.fd) (runtime_error "Invalid client ID\n")
    pure client.fd

  abbrev found : Option ℕ → M (App Q) (ClientData Q)
  found none = raise (runtime_error "Client not found\n")
  found (some i) = client_at i

  abbrev without : ℤ → Server Q → Server Q
  without cl_id sv = record sv {
    nr_of_connections = add32 sv.nr_of_connections all_ones;
    clients = reset_client cl_id sv.clients;
  }

  unfoldable pub disconnect_client : ℤ → M (App Q) (Unit {0})
  unfolding get_client_ref reset_client
  disconnect_client cl_id = do
    ref ← get_client_ref cl_id
    client ← found ref
    os_call (close client.fd)
    on_server (without cl_id)

-- Whether send returned 0 or more. How many bytes it took is not looked at.
abbrev is_sent : Option ℕ → Bool
is_sent none = false
is_sent (some _) = true

module _ {Q : Type 0} ⦃os : Kernel⦄ where
  unfoldable pub send_msg : Bytes → ℤ → M (App Q) (Unit {0})
  unfolding get_selected_client_fd
  send_msg msg cl_id = do
    selected_fd ← get_selected_client_fd cl_id
    r ← os_call (send selected_fd msg)
    raise_if (not (is_sent r)) (runtime_error "Failed to send msg\n")

  abbrev pub received_into : MessageFrame → Option Bytes → M (App Q) (ℕ × MessageFrame)
  received_into frame none = raise (runtime_error "Failed to receive msg\n")
  received_into frame (some bytes) = pure (length bytes, overlay bytes frame)

  -- The number of bytes received, and the frame.
  unfoldable pub receive_msg : MessageFrame → ℤ → M (App Q) (ℕ × MessageFrame)
  unfolding get_selected_client_fd
  receive_msg frame cl_id = do
    selected_fd ← get_selected_client_fd cl_id
    r ← os_call (recv selected_fd frame.msg_len)
    received_into frame r

module _ {Q : Type 0} ⦃queue : StringQueue Q⦄ ⦃os : Kernel⦄ where
  -- The constructor of Client_Data: it takes the next identifier and draws a colour.
  abbrev pub new_client : ℤ → M (App Q) (ClientData Q)
  new_client fd = do
    id ← gets λ s. s.next_id
    modify λ s. record s { next_id = add32 s.next_id 1 }
    color ← os_call draw_color
    pure (record {
      personal_id = to_int32 id;
      fd = fd;
      name = [];
      color_id = pos color;
      init_state = initial_state;
      send_queue = queue.new_queue;
    })

  abbrev with_flags : ℤ → Option ℕ → M (App Q) (Unit {0})
  with_flags fd none = do
    os_call (close fd)
    raise (runtime_error "Failed to get flags on client\n")
  with_flags fd (some flags) = do
    done ← os_call (set_flags fd (bit_or flags o_nonblock))
    when (not done) (do os_call (close fd); raise (runtime_error "Failed fcntl call\n"))

  abbrev set_nonblocking : ℤ → M (App Q) (Unit {0})
  set_nonblocking fd = do flags ← os_call (get_flags fd); with_flags fd flags

  abbrev seat : ℤ → Option ℕ → M (App Q) (ℤ × ℤ)
  seat cl_socket none = do os_call (close cl_socket); pure (minus_one, minus_one)
  seat cl_socket (some i) = do
    client ← new_client cl_socket
    on_server (put_client i client)
    on_server λ sv. record sv { nr_of_connections = add32 sv.nr_of_connections 1 }
    pure (cl_socket, client.personal_id)

  abbrev accepted : Bool → Accepted → M (App Q) (ℤ × ℤ)
  accepted make_non_blocking Accepted.again = pure (minus_one, minus_one)
  accepted make_non_blocking Accepted.failed = raise (runtime_error "Failed to accept client\n")
  accepted make_non_blocking (Accepted.socket n) = do
    when make_non_blocking (set_nonblocking (pos n))
    slot ← gets λ s. free_slot s.server.clients
    seat (pos n) slot

  -- The socket and the identifier of the new client, or -1 and -1.
  unfoldable pub accept_client : Bool → M (App Q) (ℤ × ℤ)
  unfolding free_slot
  accept_client make_non_blocking = do
    sv_socket ← gets λ s. s.server.sv_socket
    raise_if (is_negative sv_socket) (runtime_error "SV socket not initialized\n")
    r ← os_call (accept4 sv_socket)
    accepted make_non_blocking r

  -- The destructor closes the sockets of all clients, and its own.
  abbrev close_all : List (Option (ClientData Q)) → M (App Q) (Unit {0})
  close_all [] = skip
  close_all (none ∷ os) = close_all os
  close_all (some c ∷ os) = os_call (close c.fd) >> close_all os

  unfoldable pub destroy_server : M (App Q) (Unit {0})
  destroy_server = do
    clients ← gets λ s. s.server.clients
    close_all clients
    sv_socket ← gets λ s. s.server.sv_socket
    os_call (close sv_socket)

  abbrev with_own_flags : ℤ → Option ℕ → M (App Q) (Unit {0})
  with_own_flags sv_socket none = raise (runtime_error "Could not fetch flags\n")
  with_own_flags sv_socket (some flags) =
      if bit_and flags o_nonblock == o_nonblock then skip else (do
        done ← os_call (set_flags sv_socket (bit_or flags o_nonblock))
        raise_if (not done) (runtime_error "Failed fcntl call\n"))

  unfoldable pub make_sv_socket_nonblocking : M (App Q) (Unit {0})
  make_sv_socket_nonblocking = do
    sv_socket ← gets λ s. s.server.sv_socket
    raise_if (is_negative sv_socket) (runtime_error "Sv socket not initialized\n")
    flags ← os_call (get_flags sv_socket)
    with_own_flags sv_socket flags
