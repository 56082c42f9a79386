-- ===== src/Samples.antt =====
-- A queue and an operating system for the tests, and some objects in a state that a run reaches.
use chat_app.Common.{
  ℕ, zero, suc, ◌≤◌, ◌<◌, ◌≡◌, refl, Bool, true, false, List, [], ◌∷◌, ◌++◌, Option, none, some,
  arith, ltb, if◌then◌else◌, ℤ, pos, length, take, subst,
}
use chat_app.Text.{Bytes, codes}
use chat_app.Message.{ServerMessage, empty_msg}
use chat_app.Resources.{Actions, get_action, queue_size}
use chat_app.Kernel.{Kernel, Accepted, EventRead}
use chat_app.Queues.{StringQueue}
use chat_app.State.{ClientData, App, new_manager}

pub push_full_list :
    (q : List Bytes) (s : Bytes) → queue_size ≤ length q → ltb (length q) queue_size ≡ false
push_full_list q s h = ground arith

pub push_room_list : (q : List Bytes) → length q < queue_size → ltb (length q) queue_size ≡ true
push_room_list q h = ground arith

abbrev pub push_list : List Bytes → Bytes → Bool × List Bytes
push_list q s = if ltb (length q) queue_size then (true, q ++ s ∷ []) else (false, q)

abbrev pub pop_list : List Bytes → Option (Bytes × List Bytes)
pop_list [] = none
pop_list (s ∷ q) = some (s, q)

-- A list that holds at most `queue_size` texts.
instance abbrev pub list_queue : StringQueue (List Bytes)
list_queue = record {
  new_queue = [];
  try_push = push_list;
  try_pop = pop_list;
  contents = λ q. q;
  contents_new = refl;
  push_room = λ q s h. rw (push_room_list q h) (refl, refl);
  push_full = λ q s h. rw (push_full_list q s h);
  pop_empty = λ q e. rw e;
  pop_oldest = λ q s rest e. rw e (rest, refl, refl);
}

length-take-le : {A : Type 0} (n : ℕ) (xs : List A) → length (take n xs) ≤ n
length-take-le zero xs = omega arith
length-take-le (suc n) [] = omega arith
length-take-le (suc n) (x ∷ xs) = omega (arith, length-take-le n xs)

pub fits_some : {A : Type 0} (n : ℕ) (xs ys : List A) → some (take n xs) ≡ some ys → length ys ≤ n
fits_some n xs ys e =
    let same : take n xs ≡ ys = cc e in subst (λ zs. length zs ≤ n) same (length-take-le n xs)

-- Every call succeeds; a new connection comes as socket 7.
instance abbrev pub calm_kernel : Kernel
calm_kernel = record {
  send_result = λ t fd text. some (length text);
  recv_result = λ t fd n. some (take n (codes "hello"));
  recv_would_block = λ t fd. false;
  accept_result = λ t fd. Accepted.socket 7;
  flags_result = λ t fd. some 2;
  set_flags_result = λ t fd flags. true;
  eventfd_result = λ t. some 9;
  write_result = λ t fd. true;
  read_result = λ t fd. EventRead.counter;
  epoll_create_result = λ t. some 3;
  epoll_ctl_result = λ t epfd fd mask. true;
  epoll_wait_result = λ t epfd n. some (take n (record { fd = pos 4; events = 1 } ∷ []));
  line_result = λ t. none;
  color_result = λ t. 5;
  is_address = λ a. true;
  socket_result = λ t. some 4;
  setsockopt_result = λ t fd. true;
  bind_result = λ t fd. true;
  listen_result = λ t fd. true;
  connect_result = λ t fd. true;
  word_result = λ t. codes "ann";
  recv_fits = λ t fd n {bytes} e. fits_some n (codes "hello") bytes e;
  epoll_wait_fits =
      λ t epfd n {events} e. fits_some n (record { fd = pos 4; events = 1 } ∷ []) events e;
  color_range = λ t. (omega arith, omega arith);
}

-- Client `id` in `state`, on socket 4 and its identifier.
abbrev pub sample_client : ℕ → ℤ → ClientData (List Bytes)
sample_client id state = record {
  personal_id = pos id;
  fd = pos (suc (suc (suc (suc id))));
  name = codes "ann";
  color_id = pos 3;
  init_state = state;
  send_queue = [];
}

-- Client 0 in the chat, and client 1, which is new.
abbrev pub sample_table : List (Option (ClientData (List Bytes)))
sample_table =
    some (sample_client 0 (pos 3)) ∷ none ∷ some (sample_client 1 (pos 0)) ∷ none ∷ none ∷ none ∷ []

-- These two clients, each with a worker of its own, and the counter at 2.
abbrev pub sample_app : App (List Bytes)
sample_app = record {
  server = record {
    sv_socket = pos 3;
    nr_of_connections = 2;
    clients = sample_table;
    done = false;
  };
  manager = record new_manager {
    nr_of_launched_threads = 2;
    worker_threads =
        some (record { nr_clients = 1; evfd = pos 9 })
        ∷ some (record { nr_clients = 1; evfd = pos 10 })
        ∷ [];
  };
  next_id = 2;
  trace = [];
}

abbrev pub request_msg : ServerMessage
request_msg = record empty_msg { action = get_action Actions.init_req; name = codes "bob" }
