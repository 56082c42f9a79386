-- ===== src/Client/Setup.antt =====
-- src/Client/Client.cpp, lines 8 to 33: the constructor of the client.
use chat_app.Common.{
  ℕ, false, not, [], ◌++◌, ℤ, minus_one, is_negative, M, pure, raise_if, lift, gets, ◌>>=◌, ◌>>◌,
  runtime_error, pos,
}
use chat_app.Text.{Bytes, codes}
use chat_app.Message.{empty_msg}
use chat_app.Resources.{Colors, color_index, color_of, color_end, endl, get_color, max_len}
use chat_app.Kernel.{Kernel, descriptor, print, read_word, eventfd, open_socket, connect}
use chat_app.Client.{Client, Process, os_call, on_client, set_name}

-- The members before the constructor's body; the event descriptor is set in it.
abbrev pub new_client : Client
new_client = record {
  is_initialized_flag = false;
  cl_event_fd = minus_one;
  name = [];
  color_id = pos (color_index Colors.white);
  id = [];
  init_req = false;
  init_done = false;
  cl_socket = minus_one;
  done = false;
}

-- `first` is what the uninitialised frame holds.
abbrev pub new_process : Bytes → Process
new_process first = record {
  client = new_client;
  frame = record { msg = first; msg_len = max_len };
  msg = empty_msg;
  trace = [];
}

abbrev pub prompt : Bytes
prompt = color_of Colors.bright_magenta ++ (codes "Please input your name: " ++ color_end)

module _ ⦃os : Kernel⦄ where
  abbrev pub get_evfd : M Process ℤ
  get_evfd = do
    r ← os_call eventfd
    raise_if (is_negative (descriptor r)) (runtime_error "eventfd error\n")
    pure (descriptor r)

  unfoldable pub construct_client : ℕ → ℕ → ℕ → Bytes → ℕ → M Process (Unit {0})
  unfolding set_name
  construct_client domain type protocol sv_addr port = do
    os_call (print prompt)
    c ← gets λ s. s.client
    col ← lift (get_color c.color_id)
    os_call (print (endl col))
    buffer ← os_call read_word
    evfd ← get_evfd
    on_client λ c'. record c' { cl_event_fd = evfd }
    on_client λ c'. set_name c' buffer
    r ← os_call (open_socket domain type protocol)
    on_client λ c'. record c' { cl_socket = descriptor r }
    raise_if (is_negative (descriptor r)) (runtime_error "Failed to open socket - Client\n")
    raise_if (not (os.is_address sv_addr)) (runtime_error "Failed to load network addr in struct\n")
    done ← os_call (connect (descriptor r) sv_addr port)
    raise_if (not done) (runtime_error "Failed connect\n")
