-- ===== src/Resources.antt =====
-- include/resources.h: constants, actions and their names, colours, the line that a client prints
-- for a message, and the reports on std::cerr.
pub mod Printing
use chat_app.Common.{
  ℕ, ◌*◌, List, [], ◌∷◌, ◌++◌, none, some, get_elem?, ℤ, pos, negsuc, Outcome, ok, throw, fault,
  bind, if◌then◌else◌, Exception, runtime_error, server_full_exception, queue_exception,
  client_connection_exception, thread_managing_exception, invalid_argument, out_of_range,
}
use chat_app.Text.{Bytes, codes, bytes_eq}
use chat_app.Text.Decimal.{stoi}
use chat_app.Message.{ServerMessage}

abbrev pub server_name : Bytes
server_name = codes "SERVER"

abbrev pub max_len : ℕ
max_len = 512

abbrev pub max_nr_of_threads : ℕ
max_nr_of_threads = 2

abbrev pub max_clients_per_thread : ℕ
max_clients_per_thread = 3

abbrev pub port : ℕ
port = 8080

abbrev pub localhost : Bytes
localhost = codes "127.0.0.1"

abbrev pub max_events : ℕ
max_events = 20

abbrev pub queue_size : ℕ
queue_size = 128

abbrev pub max_clients : ℕ
max_clients = max_nr_of_threads * max_clients_per_thread

abbrev pub name_uninitialized : Bytes
name_uninitialized = codes "name_uninitialized"

abbrev pub id_uninitialized : Bytes
id_uninitialized = codes "id_uninitialized"

abbrev pub quit_msg : Bytes
quit_msg = codes "#quit"

pub data Actions : Type 0 where
  accept accepted init_req init_done unicast_repeated : Actions
  sv_disconnected thr_disconnected cl_disconnected : Actions

-- `static_cast<size_t>`
abbrev pub action_index : Actions → ℕ
action_index Actions.accept = 0
action_index Actions.accepted = 1
action_index Actions.init_req = 2
action_index Actions.init_done = 3
action_index Actions.unicast_repeated = 4
action_index Actions.sv_disconnected = 5
action_index Actions.thr_disconnected = 6
action_index Actions.cl_disconnected = 7

abbrev pub actions_arr : List Bytes
actions_arr =
    codes "ACCEPT"
    ∷ codes "ACCEPTED"
    ∷ codes "INIT_REQ"
    ∷ codes "INIT_DONE"
    ∷ codes "UNICAST_REPEATED"
    ∷ codes "SV_DISCONNECTED"
    ∷ codes "THR_DISCONNECTED"
    ∷ codes "CL_DISCONNECTED"
    ∷ []

-- An element of a constant array; the index of an enumerator is in range.
abbrev pub element : List Bytes → ℕ → Bytes
element arr i = elim (get_elem? arr i) [ none ↦ [] | some b ↦ b ]

abbrev pub get_action : Actions → Bytes
get_action a = element actions_arr (action_index a)

-- The states of a client in the handshake.
abbrev pub disconnect_state : ℤ
disconnect_state = negsuc 0

abbrev pub initial_state : ℤ
initial_state = pos 0

abbrev pub requested_init : ℤ
requested_init = pos 1

abbrev pub sent_init_confirmation : ℤ
sent_init_confirmation = pos 2

abbrev pub init_done_state : ℤ
init_done_state = pos 3

-- `"\033[" code "m"`
abbrev pub escape : Bytes → Bytes
escape code = 27 ∷ b'[' ∷ code ++ b'm' ∷ []

abbrev pub color_arr : List Bytes
color_arr =
    escape (codes "0")
    ∷ escape (codes "31")
    ∷ escape (codes "32")
    ∷ escape (codes "33")
    ∷ escape (codes "34")
    ∷ escape (codes "35")
    ∷ escape (codes "36")
    ∷ escape (codes "37")
    ∷ escape (codes "91")
    ∷ escape (codes "92")
    ∷ escape (codes "93")
    ∷ escape (codes "94")
    ∷ escape (codes "95")
    ∷ escape (codes "96")
    ∷ escape (codes "97")
    ∷ []

pub data Colors : Type 0 where
  col_end red green yellow blue magenta cyan white : Colors
  bright_red bright_green bright_yellow bright_blue bright_magenta bright_cyan bright_white : Colors

-- `static_cast<size_t>`
abbrev pub color_index : Colors → ℕ
color_index Colors.col_end = 0
color_index Colors.red = 1
color_index Colors.green = 2
color_index Colors.yellow = 3
color_index Colors.blue = 4
color_index Colors.magenta = 5
color_index Colors.cyan = 6
color_index Colors.white = 7
color_index Colors.bright_red = 8
color_index Colors.bright_green = 9
color_index Colors.bright_yellow = 10
color_index Colors.bright_blue = 11
color_index Colors.bright_magenta = 12
color_index Colors.bright_cyan = 13
color_index Colors.bright_white = 14

-- `get_color(Colors)`
abbrev pub color_of : Colors → Bytes
color_of c = element color_arr (color_index c)

-- `C_E`
abbrev pub color_end : Bytes
color_end = color_of Colors.col_end

-- A text and `std::endl`.
abbrev pub endl : Bytes → Bytes
endl text = text ++ 10 ∷ []

-- `e.what()`
abbrev pub what : Exception → Bytes
what (runtime_error text) = codes text
what (server_full_exception text) = codes text
what (queue_exception text) = codes text
what (client_connection_exception text) = codes text
what (thread_managing_exception text) = codes text
what (invalid_argument text) = codes text
what (out_of_range text) = codes text

-- The texts that the three reports write to std::cerr.
abbrev pub cerr_out_err : Bytes → Bytes
cerr_out_err msg = color_of Colors.bright_red ++ (msg ++ endl color_end)

abbrev pub cerr_out_warning : Bytes → Bytes
cerr_out_warning msg = color_of Colors.yellow ++ (msg ++ endl color_end)

abbrev pub clog_out_notif : Bytes → Bytes
clog_out_notif msg = color_of Colors.green ++ (msg ++ endl color_end)

-- `get_color(int)`: operator[] of an array, undefined outside it.
unfoldable pub get_color : ℤ → Outcome Bytes
get_color (pos n) = elim (get_elem? color_arr n) [ none ↦ fault | some b ↦ ok b ]
get_color (negsuc n) = fault

-- The bytes that the insertions into std::cout make up.
abbrev pub formatted : ServerMessage → Bytes → Bytes → Bytes
formatted msg col old_col =
    (if bytes_eq msg.name server_name
      then []
      else color_end ++ (col ++ (msg.id ++ (b'-' ∷ (color_end ++ old_col)))))
    ++ (color_end
        ++ (col
            ++ (msg.name
                ++ (codes ": " ++ (msg.msg_content ++ (color_end ++ (old_col ++ 10 ∷ [])))))))

-- What a call of `stdout_formatted_msg` writes.
pub data Shown : Type 0 where
  nothing : Shown
  on_cout : Bytes → Shown
  on_cerr : Bytes → Shown

-- Standard exceptions are caught, and reported.
abbrev pub shown : Outcome Bytes → Outcome Shown
shown (ok out) = ok (on_cout out)
shown (throw e) = ok (on_cerr (cerr_out_err (what e)))
shown fault = fault

unfoldable pub stdout_formatted_msg : ServerMessage → ℤ → Outcome Shown
stdout_formatted_msg msg old_color_code =
    if bytes_eq msg.action (get_action Actions.unicast_repeated)
    then shown (
        bind (stoi msg.color_id) λ c.
          bind (get_color c)
            λ col. bind (get_color old_color_code) λ old_col. ok (formatted msg col old_col))
    else ok nothing
