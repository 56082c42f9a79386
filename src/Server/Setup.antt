-- ===== src/Server/Setup.antt =====
-- include/Server/Server.h: the constructors of the server, which open its socket, and the calls that
-- start to listen on it.
use chat_app.Common.{
  ℕ, not, Option, none, some, is_negative, M, raise_if, ◌>>=◌, gets, ◌>>◌, runtime_error,
}
use chat_app.Text.{Bytes}
use chat_app.Resources.{max_clients}
use chat_app.Kernel.{Kernel, descriptor, open_socket, setsockopt, bind, listen}
use chat_app.State.{App, os_call, on_server}

module _ {Q : Type 0} ⦃os : Kernel⦄ where
  -- What both constructors do after they have filled in the address.
  abbrev pub open_and_bind : ℕ → ℕ → ℕ → ℕ → Option Bytes → ℕ → M (App Q) (Unit {0})
  open_and_bind domain type protocol port addr sock_opts = do
    r ← os_call (open_socket domain type protocol)
    on_server λ sv. record sv { sv_socket = descriptor r }
    raise_if (is_negative (descriptor r)) (runtime_error "Failed to open socket - Server\n")
    set_option ← os_call (setsockopt (descriptor r) sock_opts)
    raise_if (not set_option) (runtime_error "Failed to use setsockopt - Server\n")
    is_bound ← os_call (bind (descriptor r) addr port)
    raise_if (not is_bound) (runtime_error "Failed to bind - Server\n")

  unfoldable pub construct_server : ℕ → ℕ → ℕ → ℕ → Bytes → ℕ → M (App Q) (Unit {0})
  construct_server domain type protocol port addr sock_opts = do
    raise_if (not (os.is_address addr)) (runtime_error "Failed to load network addr in struct\n")
    open_and_bind domain type protocol port (some addr) sock_opts

  -- The constructor with no address: the socket listens on every one.
  unfoldable pub construct_server_any : ℕ → ℕ → ℕ → ℕ → ℕ → M (App Q) (Unit {0})
  construct_server_any domain type protocol port sock_opts =
      open_and_bind domain type protocol port none sock_opts

  unfoldable pub listen_connections : M (App Q) (Unit {0})
  listen_connections = do
    sv_socket ← gets λ s. s.server.sv_socket
    listens ← os_call (listen sv_socket max_clients)
    raise_if (not listens) (runtime_error "Failed to listen - Server\n")
