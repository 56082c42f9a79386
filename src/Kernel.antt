-- ===== src/Kernel.antt =====
-- The operating system as the program sees it: what each call returns may depend on all calls made
-- before, which the trace records. Nothing of it is implemented in this repository.
use chat_app.Common.{
  ℕ, ◌≤◌, ◌≡◌, Bool, List, ◌∷◌, Option, none, some, length, ℤ, pos, minus_one, M, ok,
}
use chat_app.Text.{Bytes}

-- One call, with the arguments that matter to the program.
pub data Effect : Type 0 where
  sent : (fd : ℤ) (text : Bytes) → Effect
  received : (fd : ℤ) → Effect
  accepted_from : (fd : ℤ) → Effect
  flags_read : (fd : ℤ) → Effect
  flags_set : (fd : ℤ) (flags : ℕ) → Effect
  closed : (fd : ℤ) → Effect
  event_created : Effect
  signalled : (evfd : ℤ) → Effect
  drained : (evfd : ℤ) → Effect
  epoll_created : Effect
  watched : (epfd fd : ℤ) (mask : ℕ) → Effect
  waited : (epfd : ℤ) → Effect
  spawned : (index : ℕ) (socket id evfd : ℤ) → Effect
  joined : (index : ℕ) → Effect
  line_read : Effect
  printed : (text : Bytes) → Effect
  logged : (text : Bytes) → Effect
  color_drawn : Effect
  socket_opened : (domain kind protocol : ℕ) → Effect
  option_set : (fd : ℤ) (option : ℕ) → Effect
  bound_to : (fd : ℤ) (addr : Option Bytes) (port : ℕ) → Effect
  listening_on : (fd : ℤ) (backlog : ℕ) → Effect
  connected_to : (fd : ℤ) (addr : Bytes) (port : ℕ) → Effect
  listener_spawned : Effect
  word_read : Effect

-- The newest call first.
abbrev pub Trace : Type 0
Trace = List Effect

-- `epoll_event`
pub record EpollEvent : Type 0 where
  pub fd : ℤ
  pub events : ℕ

pub data Accepted : Type 0 where
  socket : ℕ → Accepted
  again : Accepted
  failed : Accepted

-- A read of eight bytes from an event descriptor.
pub data EventRead : Type 0 where
  counter : EventRead
  would_block : EventRead
  bad : EventRead

-- `none` stands for -1. The laws are those of the manual pages and of uniform_int_distribution.
pub record Kernel : Type 0 where
  pub send_result : Trace → ℤ → Bytes → Option ℕ
  pub recv_result : Trace → ℤ → ℕ → Option Bytes
  pub recv_would_block : Trace → ℤ → Bool
  pub accept_result : Trace → ℤ → Accepted
  pub flags_result : Trace → ℤ → Option ℕ
  pub set_flags_result : Trace → ℤ → ℕ → Bool
  pub eventfd_result : Trace → Option ℕ
  pub write_result : Trace → ℤ → Bool
  pub read_result : Trace → ℤ → EventRead
  pub epoll_create_result : Trace → Option ℕ
  pub epoll_ctl_result : Trace → ℤ → ℤ → ℕ → Bool
  pub epoll_wait_result : Trace → ℤ → ℕ → Option (List EpollEvent)
  pub line_result : Trace → Option Bytes
  pub color_result : Trace → ℕ
  pub is_address : Bytes → Bool
  pub socket_result : Trace → Option ℕ
  pub setsockopt_result : Trace → ℤ → Bool
  pub bind_result : Trace → ℤ → Bool
  pub listen_result : Trace → ℤ → Bool
  pub connect_result : Trace → ℤ → Bool
  pub word_result : Trace → Bytes
  pub recv_fits :
      (t : Trace) (fd : ℤ) (n : ℕ) {bytes : Bytes}
      → recv_result t fd n ≡ some bytes
      → length bytes ≤ n
  pub epoll_wait_fits :
      (t : Trace) (fd : ℤ) (n : ℕ) {events : List EpollEvent}
      → epoll_wait_result t fd n ≡ some events
      → length events ≤ n
  pub color_range : (t : Trace) → (1 ≤ color_result t) × (color_result t ≤ 14)

-- The int that a call gives back: a descriptor, or -1.
abbrev pub descriptor : Option ℕ → ℤ
descriptor none = minus_one
descriptor (some n) = pos n

-- The call `e`, which returns what `ask` says.
abbrev pub call : {A : Type 0} → Effect → (Trace → A) → M Trace A
call e ask t = (ok (ask t), e ∷ t)

module _ ⦃os : Kernel⦄ where
  abbrev pub send : ℤ → Bytes → M Trace (Option ℕ)
  send fd text = call (sent fd text) (λ t. os.send_result t fd text)

  abbrev pub recv : ℤ → ℕ → M Trace (Option Bytes)
  recv fd n = call (received fd) (λ t. os.recv_result t fd n)

  abbrev pub accept4 : ℤ → M Trace Accepted
  accept4 fd = call (accepted_from fd) (λ t. os.accept_result t fd)

  abbrev pub get_flags : ℤ → M Trace (Option ℕ)
  get_flags fd = call (flags_read fd) (λ t. os.flags_result t fd)

  abbrev pub set_flags : ℤ → ℕ → M Trace Bool
  set_flags fd flags = call (flags_set fd flags) (λ t. os.set_flags_result t fd flags)

  abbrev pub eventfd : M Trace (Option ℕ)
  eventfd = call event_created os.eventfd_result

  -- Whether all eight bytes of the counter increment were written.
  abbrev pub write_event : ℤ → M Trace Bool
  write_event evfd = call (signalled evfd) (λ t. os.write_result t evfd)

  abbrev pub read_event : ℤ → M Trace EventRead
  read_event evfd = call (drained evfd) (λ t. os.read_result t evfd)

  abbrev pub read_line : M Trace (Option Bytes)
  read_line = call line_read os.line_result

  abbrev pub draw_color : M Trace ℕ
  draw_color = call color_drawn os.color_result

  abbrev pub open_socket : ℕ → ℕ → ℕ → M Trace (Option ℕ)
  open_socket domain kind protocol = call (socket_opened domain kind protocol) os.socket_result

  abbrev pub setsockopt : ℤ → ℕ → M Trace Bool
  setsockopt fd option = call (option_set fd option) (λ t. os.setsockopt_result t fd)

  -- No address stands for INADDR_ANY.
  abbrev pub bind : ℤ → Option Bytes → ℕ → M Trace Bool
  bind fd addr port = call (bound_to fd addr port) (λ t. os.bind_result t fd)

  abbrev pub listen : ℤ → ℕ → M Trace Bool
  listen fd backlog = call (listening_on fd backlog) (λ t. os.listen_result t fd)

  abbrev pub connect : ℤ → Bytes → ℕ → M Trace Bool
  connect fd addr port = call (connected_to fd addr port) (λ t. os.connect_result t fd)

  -- `std::cin >> buffer`
  abbrev pub read_word : M Trace Bytes
  read_word = call word_read os.word_result

abbrev pub close : ℤ → M Trace (Unit {0})
close fd = call (closed fd) (λ _. tt)

abbrev pub print : Bytes → M Trace (Unit {0})
print text = call (printed text) (λ _. tt)

-- An insertion into std::cerr.
abbrev pub print_err : Bytes → M Trace (Unit {0})
print_err text = call (logged text) (λ _. tt)

abbrev pub note : Effect → M Trace (Unit {0})
note e = call e (λ _. tt)
