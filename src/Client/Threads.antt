-- ===== src/Client/Threads.antt =====
-- The client process with its two threads: src/Client/Client_main.cpp, lines 43 to 45. What it says to
-- the server, however the rounds of the two loops follow each other.
use chat_app.Common.{
  ℕ, ◌≡◌, refl, sym, subst, inl, inr, Bool, true, false, ◌∷◌, Option, none, some, arith, Bool-cases,
  Option-cases, if◌then◌else◌, ℤ, pos, M, monad, ok, ◌>>=◌, ◌>>◌, gets, pure, when,
}
use chat_app.Common.Keeps.{
  Keeps, Keeps-bind, Keeps-when, Keeps-gets, Keeps-lift, Keeps-pure, keeps_rules,
}
use chat_app.Text.{Bytes, is_empty}
use chat_app.Message.{get_concatenated_msg, reset_msg}
use chat_app.Kernel.{Kernel, sent, get_flags, set_flags}
use chat_app.Epoll.{EpollManager, EpollPair, new_epoll, add_monitored_fd}
use chat_app.Client.{Process, os_call, request_msg, set_msg}
use chat_app.Client.Calls.{
  send_msg, receive_msg_from_sv, make_cl_socket_nonblocking, with_flags, send_msg_from_stdin,
}
use chat_app.Client.Loops.{send_round, receive_round, poll_stdin, first_request}
use chat_app.Client.Setup.{new_process, construct_client}
use chat_app.Client.Joining.{given_name, constructed}
use chat_app.Client.Dialogue.{
  sends, Said, silent, asks, Speaks, quiet-Keeps, Speaks-asked, Speaks-any,
}
use chat_app.Client.Speaking.{
  wait_events-Keeps, new_epoll-Keeps, add_monitored_fd-Keeps, set_msg-Keeps,
  send_msg_from_stdin-Keeps,
}
use chat_app.Client.Answering.{receive_msg_from_sv-Keeps}

module _ ⦃os : Kernel⦄ (domain type protocol port : ℕ) (addr first : Bytes) where
  -- The states of a client process: its constructor has succeeded, and the threads have set up their
  -- polling and take turns in rounds. A round of the sending loop that throws ends the process.
  pub data Runs : Process → Type 0 where
    connects :
        (construct_client domain type protocol addr port (new_process first)).0 ≡ ok tt
        → Runs (construct_client domain type protocol addr port (new_process first)).1
    nonblocking : {s : Process} → Runs s → Runs (make_cl_socket_nonblocking s).1
    polls : {s : Process} → Runs s → Runs (os_call new_epoll s).1
    watches :
        {s : Process} (em : EpollManager) (ep : EpollPair)
        → Runs s
        → Runs (os_call (add_monitored_fd em ep) s).1
    sending :
        {s : Process} (em em' : EpollManager)
        → (send_round em s).0 ≡ ok em'
        → Runs s
        → Runs (send_round em s).1
    receiving : {s : Process} (em : EpollManager) → Runs s → Runs (receive_round em s).1

module _ ⦃os : Kernel⦄ (fd : ℕ) (name : Bytes) where
  flags-Keeps : (fd' : ℤ) (flags : Option ℕ) → Keeps (Speaks fd name false) (with_flags fd' flags)
  flags-Keeps fd' none = search keeps_rules
  flags-Keeps fd' (some flags) = search (keeps_rules, set_flags-Keeps)
    where
      set_flags-Keeps : (fd' : ℤ) (n : ℕ) → Keeps (Speaks fd name false) (os_call (set_flags fd' n))
      set_flags-Keeps fd' n = quiet-Keeps fd name false _ (λ t. refl)

  nonblocking-Keeps : Keeps (Speaks fd name false) make_cl_socket_nonblocking
  unfolding make_cl_socket_nonblocking
  nonblocking-Keeps = search (keeps_rules, get_flags-Keeps, flags-Keeps)
    where
      get_flags-Keeps : (fd' : ℤ) → Keeps (Speaks fd name false) (os_call (get_flags fd'))
      get_flags-Keeps fd' = quiet-Keeps fd name false _ (λ t. refl)

  -- The last steps of a round.
  then_pure :
      {b : Bool} (ready : Bool) (m : M Process (Unit {0})) (em : EpollManager)
      → Keeps (Speaks fd name b) m
      → Keeps (Speaks fd name b) (when ready m >> pure em)
  then_pure ready m em km = Keeps-bind _ _ (Keeps-when ready m (λ _. km)) (λ _. Keeps-pure em)

  receive_round-Keeps : (em : EpollManager) → Keeps (Speaks fd name false) (receive_round em)
  unfolding receive_round
  receive_round-Keeps em = Keeps-bind _ _ (wait_events-Keeps fd name false em) (λ waited.
      Keeps-bind _ _ (Keeps-gets _) (λ c. Keeps-bind _ _ (Keeps-lift _) (λ ready.
        then_pure ready receive_msg_from_sv waited.1 (receive_msg_from_sv-Keeps fd name))))

  poll_stdin-Keeps : (em : EpollManager) → Keeps (Speaks fd name true) (poll_stdin em)
  poll_stdin-Keeps em =
      Keeps-bind _ _ (wait_events-Keeps fd name true em)
        (λ waited. Keeps-bind _ _ (Keeps-lift _) (λ typed. then_pure typed _ waited.1 typed-Keeps))
    where
      typed-Keeps :
          Keeps
            (Speaks fd name true)
            (do send_msg_from_stdin; m ← gets λ s. s.msg; set_msg (reset_msg m))
      typed-Keeps =
          Keeps-bind _ _ (send_msg_from_stdin-Keeps fd name)
            (λ _. search (keeps_rules, set_msg-Keeps fd name true))

  -- The first request is sent, and noted.
  abbrev with_request : Process → Process
  with_request s = record s {
    client = record s.client { init_req = true };
    msg = request_msg s.msg s.client;
    trace = sent (pos fd) (get_concatenated_msg (request_msg s.msg s.client)) ∷ s.trace;
  }

  request_sent :
      (em em' : EpollManager) (s : Process)
      → s.client.cl_socket ≡ pos fd
      → is_empty s.client.name ≡ false
      → ((first_request >> pure em) s).0 ≡ ok em'
      → ((first_request >> pure em) s).1 ≡ with_request s
  unfolding send_msg monad os_call
  request_sent em em' s at filled done =
      elim (Option-cases
        (os.send_result s.trace (pos fd) (get_concatenated_msg (request_msg s.msg s.client)))) [
          | inl fails ↦ absurd (ground (arith, at, filled, fails, done))
          | inr (n, goes) ↦ ground (arith, at, filled, goes)
        ]

  nothing_asked :
      (em : EpollManager) (s : Process)
      → is_empty s.client.name ≡ true
      → (first_request >> pure em) s ≡ (ok em, s)
  unfolding monad
  nothing_asked em s empty = ground (arith, empty)

  -- A round that does not throw keeps to the dialogue.
  turn :
      (em em' : EpollManager) (s : Process)
      → Speaks fd name false s
      → (has : Bool) → s.client.init_req ≡ has
      → ((if has then poll_stdin em else (first_request >> pure em)) s).0 ≡ ok em'
      → Speaks fd name false ((if has then poll_stdin em else (first_request >> pure em)) s).1
  turn em em' s h true has done = Speaks-any ((poll_stdin-Keeps em).at s (Speaks-asked has h))
  turn em em' s h false fresh done = elim (Bool-cases (is_empty s.client.name)) [
    | inl empty ↦ subst (λ r. Speaks fd name false r.1) (sym (nothing_asked em s empty)) h
    | inr filled ↦
        let now : Said fd name false s.client.init_done s.client.id (sends s.trace) =
          subst (λ a. Said fd name a s.client.init_done s.client.id (sends s.trace)) fresh h.said in
        subst (Speaks fd name false) (sym (request_sent em em' s h.connected filled done)) (record {
          named = h.named;
          connected = h.connected;
          asked = λ e. refl;
          said = asks (request_msg s.msg s.client) refl h.named now;
        })
  ]

module _ ⦃os : Kernel⦄ (domain type protocol port : ℕ) (addr first : Bytes) where
  abbrev entered : Bytes
  entered = given_name domain type protocol port addr first

  -- The round as the loop makes it.
  sending-Speaks :
      (fd : ℕ) (name : Bytes) (em em' : EpollManager) (s : Process)
      → (send_round em s).0 ≡ ok em'
      → Speaks fd name false s
      → Speaks fd name false (send_round em s).1
  unfolding send_round monad
  sending-Speaks fd name em em' s done h = turn fd name em em' s h s.client.init_req refl done

  runs-Speaks :
      {s : Process}
      → Runs domain type protocol port addr first s
      → (fd : ℕ) × Speaks fd entered false s
  runs-Speaks (connects done) = elim (constructed domain type protocol port addr first) [
    | inl (x, _, thrown) ↦ absurd cc
    | inr (evfd, fd, e) ↦ (
      fd,
      subst (λ r. Speaks fd entered false r.1) (sym e)
          (record { named = refl; connected = refl; asked = λ n. cc; said = silent }),
    )
  ]
  runs-Speaks (nonblocking r) =
      let (fd, h) = runs-Speaks r in (fd, (nonblocking-Keeps fd entered).at _ h)
  runs-Speaks (polls r) =
      let (fd, h) = runs-Speaks r in (fd, (new_epoll-Keeps fd entered false).at _ h)
  runs-Speaks (watches em ep r) =
      let (fd, h) = runs-Speaks r in (fd, (add_monitored_fd-Keeps fd entered false em ep).at _ h)
  runs-Speaks (sending em em' done r) =
      let (fd, h) = runs-Speaks r in (fd, sending-Speaks fd entered em em' _ done h)
  runs-Speaks (receiving em r) =
      let (fd, h) = runs-Speaks r in (fd, (receive_round-Keeps fd entered em).at _ h)

  -- Whatever the user types and the server sends, and however the rounds of the two loops follow
  -- each other: all that a client says goes to the one socket that it has opened; it asks to be
  -- initialised, once, before it says anything else; it confirms at most once, and only after it has
  -- asked; the request, each chat line and each farewell carries the name, which is the word that was
  -- entered up to its first zero byte; and each chat line and each farewell carries the identifier
  -- that the client had then, which changes only where it confirms.
  pub Runs-Said :
      (s : Process)
      → Runs domain type protocol port addr first s
      → (fd : ℕ) × (s.client.cl_socket ≡ pos fd)
        × (s.client.name ≡ entered)
        × Said fd entered s.client.init_req s.client.init_done s.client.id (sends s.trace)
  Runs-Said s r = let (fd, h) = runs-Speaks r in (fd, h.connected, h.named, h.said)
