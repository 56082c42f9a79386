-- ===== src/Startup.antt =====
-- src/Server/Server_main.cpp and src/Client/Client_main.cpp: the command line, the choice of the
-- address, the end of the avahi process, and what is written to std::cerr before an exit.
pub mod Addresses
use chat_app.Common.{
  ℕ, zero, suc, Bool, true, false, not, ◌&&◌, ◌||◌, List, [], ◌∷◌, ◌++◌, Option, none, some, ltb,
  ◌==◌, if◌then◌else◌, ℤ,
}
use chat_app.Text.{Bytes, codes, bytes_eq, is_empty}
use chat_app.Resources.{localhost, Colors, color_of, endl, cerr_out_err}
use chat_app.Epoll.{is_positive}

-- Whether the argument is known, and `local_only`.
unfoldable pub check_argv_1 : Bytes → Bool × Bool
check_argv_1 str =
    let local = bytes_eq str (codes "LOCALHOST") in
    let lan = bytes_eq str (codes "LAN") in (local || lan, local)

abbrev pub dots : Bytes → ℕ
dots [] = 0
dots (c ∷ s) = if c == b'.' then suc (dots s) else dots s

-- `std::count(...) < 3`
abbrev pub is_invalid_ipv4 : Bytes → Bool
is_invalid_ipv4 addr = ltb (dots addr) 3

-- `if (!result.empty() && result.back() == '\n') result.pop_back();`
abbrev pub strip_newline : Bytes → Bytes
strip_newline [] = []
strip_newline (c ∷ []) = if c == 10 then [] else c ∷ []
strip_newline (c ∷ d ∷ s) = c ∷ strip_newline (d ∷ s)

abbrev pub concat : List Bytes → Bytes
concat [] = []
concat (chunk ∷ chunks) = chunk ++ concat chunks

-- `chunks` are the texts that fgets reads from the pipe; `none` is a pipe that did not open.
unfoldable pub get_sv_addr : Option (List Bytes) → Bytes
get_sv_addr none = []
get_sv_addr (some chunks) = strip_newline (concat chunks)

-- What `main` does with its arguments: an exit with failure after a text on std::cerr, the process
-- that publishes the name of the server, or the address to use.
pub data Launch : Type 0 where
  exit_failure : Bytes → Launch
  publish_name : Launch
  run_at : Bytes → Launch

-- `correct_launch_instructions` of the client.
abbrev pub client_instructions : Bytes
client_instructions =
    color_of Colors.bright_red
    ++ endl (codes "Please launch the client like this:\n./Client LOCALHOST\nor\n./Client LAN\n")

-- `correct_launch_instructions` of the server.
abbrev pub server_instructions : Bytes
server_instructions =
    color_of Colors.bright_red
    ++ endl (codes "Please launch the server like this:\n./Server LOCALHOST\nor\n./Server LAN\n")

abbrev pub client_addr : Bool → Option (List Bytes) → Bytes
client_addr true pipe = localhost
client_addr false pipe = get_sv_addr pipe

-- An address that could not be found out is reported, and checked all the same.
abbrev pub missing : Bool → Bytes → Bytes
missing true addr = []
missing false addr =
    if is_empty addr
    then cerr_out_err (codes "Server isn't correcty initialized! Failed connect\n")
    else []

abbrev pub launch_client : Bool × Bool → Option (List Bytes) → Launch
launch_client (false, _) pipe = exit_failure client_instructions
launch_client (true, local_only) pipe =
    let addr = client_addr local_only pipe in
    if is_invalid_ipv4 addr
    then exit_failure (missing local_only addr ++ cerr_out_err (codes "Invalid IPv4 format\n"))
    else run_at addr

-- `args` is argv without the program's name.
unfoldable pub client_main : List Bytes → Option (List Bytes) → Launch
unfolding check_argv_1 get_sv_addr
client_main [] pipe = exit_failure client_instructions
client_main (arg ∷ []) pipe = launch_client (check_argv_1 arg) pipe
client_main (arg ∷ _ ∷ _) pipe = exit_failure client_instructions

-- An interface of getifaddrs: the text of its IPv4 address, if it has one.
abbrev pub Interface : Type 0
Interface = Option Bytes

abbrev pub first_lan : List Interface → Bytes
first_lan [] = []
first_lan (none ∷ ifs) = first_lan ifs
first_lan (some addr ∷ ifs) = if bytes_eq addr localhost then first_lan ifs else addr

-- `none` is a failing getifaddrs.
unfoldable pub get_local_ipv4 : Option (List Interface) → Bytes
get_local_ipv4 none = []
get_local_ipv4 (some ifs) = first_lan ifs

-- What `get_local_ipv4` reports.
abbrev pub interface_errors : Option (List Interface) → Bytes
interface_errors none = cerr_out_err (codes "Failed getifaddr\n")
interface_errors (some _) = []

-- What fork gives: 0 in the child.
abbrev pub publish : Option (List Interface) → Option ℕ → Launch
publish ifs none =
    exit_failure (interface_errors ifs ++ cerr_out_err (codes "Failed to launch the DNS process\n"))
publish ifs (some zero) = publish_name
publish ifs (some (suc _)) = run_at (get_local_ipv4 ifs)

-- The address is checked before the one of the network is looked up.
abbrev pub launch_server : Bool × Bool → Option (List Interface) → Option ℕ → Launch
launch_server (false, _) ifs pid = exit_failure server_instructions
launch_server (true, local_only) ifs pid =
    if is_invalid_ipv4 localhost
    then exit_failure (codes "Invalid IPv4 format\n")
    else if local_only
    then run_at localhost
    else publish ifs pid

-- `redirected` says whether `signal` has set the handler.
unfoldable pub server_main : Bool → List Bytes → Option (List Interface) → Option ℕ → Launch
unfolding check_argv_1 get_local_ipv4
server_main false args ifs pid = exit_failure (cerr_out_err (codes "Failed to redirect sigint!\n"))
server_main true [] ifs pid = exit_failure server_instructions
server_main true (arg ∷ []) ifs pid = launch_server (check_argv_1 arg) ifs pid
server_main true (arg ∷ _ ∷ _) ifs pid = exit_failure server_instructions

-- `killed` says whether kill returned 0 or more. What is returned, and the text on std::cerr.
unfoldable pub kill_dns_service : ℤ → Bool → Bool × Bytes
kill_dns_service gl_lan_dns_pid killed =
    if is_positive gl_lan_dns_pid && not killed
    then (false, cerr_out_err (codes "Failed to terminate the DNS avahi process\n"))
    else (true, [])

-- The status of `main` once the listener has ended.
abbrev pub exit_status : ℤ → Bool → ℕ
exit_status gl_lan_dns_pid killed = if (kill_dns_service gl_lan_dns_pid killed).0 then 0 else 1

-- `handle_sigint`: the status of the exit, and the text on std::cerr.
abbrev pub handle_sigint : ℤ → Bool → ℕ × Bytes
handle_sigint gl_lan_dns_pid killed =
    (1, if is_positive gl_lan_dns_pid then (kill_dns_service gl_lan_dns_pid killed).1 else [])
