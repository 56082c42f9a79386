-- ===== src/Client/Joining.antt =====
-- From the constructor of the client to the first message that it sends.
use chat_app.Common.{
  ℕ, true, false, ◌≡◌, ◌⊎◌, inl, inr, [], ◌∷◌, none, some, arith, Bool-cases, Option-cases, ℤ, pos,
  ok, throw, Exception, runtime_error, monad,
}
use chat_app.Text.{Bytes, is_empty, until_zero}
use chat_app.Text.Decimal.{to_string}
use chat_app.Message.{ServerMessage, empty_msg, get_concatenated_msg}
use chat_app.Resources.{Actions, get_action, get_color, Colors, color_of, endl}
use chat_app.Kernel.{
  Kernel, Trace, printed, word_read, event_created, socket_opened, connected_to, sent,
}
use chat_app.Epoll.{EpollManager}
use chat_app.Client.{Client, Process, os_call, set_name}
use chat_app.Client.Calls.{send_msg}
use chat_app.Client.Loops.{send_round}
use chat_app.Client.Setup.{new_client, new_process, construct_client, prompt}

-- The calls before the name is read.
abbrev pub asked : Trace
asked = printed (endl (color_of Colors.white)) ∷ printed prompt ∷ []

-- The member variables once the client is connected.
abbrev pub joined : Bytes → ℕ → ℕ → Client
joined name evfd fd = record new_client { cl_event_fd = pos evfd; name = name; cl_socket = pos fd }

-- The first message of a client that has just been connected.
abbrev pub first_msg : Bytes → ServerMessage
first_msg name = record empty_msg {
  action = get_action Actions.init_req;
  name = name;
  color_id = to_string (pos 7);
}

module _ ⦃os : Kernel⦄ (domain type protocol port : ℕ) (addr first : Bytes) where
  -- The word that is entered, up to its first zero byte.
  abbrev pub given_name : Bytes
  given_name = until_zero (os.word_result asked)

  abbrev pub with_evfd : Trace
  with_evfd = event_created ∷ word_read ∷ asked

  abbrev pub with_socket : Trace
  with_socket = socket_opened domain type protocol ∷ with_evfd

  abbrev pub connected_process : ℕ → ℕ → Process
  connected_process evfd fd = record (new_process first) {
    client = joined given_name evfd fd;
    trace = connected_to (pos fd) addr port ∷ with_socket;
  }

  -- Some call of the constructor fails, after the calls before it.
  pub data Fails : Type 0 where
    no_evfd : os.eventfd_result (word_read ∷ asked) ≡ none → Fails
    no_socket : os.socket_result with_evfd ≡ none → Fails
    no_address : os.is_address addr ≡ false → Fails
    no_server : (fd : ℕ) → os.connect_result with_socket (pos fd) ≡ false → Fails

  connecting :
      (evfd fd : ℕ)
      → os.eventfd_result (word_read ∷ asked) ≡ some evfd
      → os.socket_result with_evfd ≡ some fd
      → ((e : Exception) × Fails
          × ((construct_client domain type protocol addr port (new_process first)).0 ≡ throw e))
        ⊎ (construct_client domain type protocol addr port (new_process first)
            ≡ (ok tt, connected_process evfd fd))
  unfolding construct_client set_name get_color monad os_call
  connecting evfd fd made opens = elim (Bool-cases (os.is_address addr)) [
    | inr unknown ↦ inl (
      runtime_error "Failed to load network addr in struct\n",
      no_address unknown,
      ground (arith, made, opens, unknown),
    )
    | inl known ↦ elim (Bool-cases (os.connect_result with_socket (pos fd))) [
      | inr fails ↦ inl (
        runtime_error "Failed connect\n",
        no_server fd fails,
        ground (arith, made, opens, known, fails),
      )
      | inl connects ↦ inr (ground (arith, made, opens, known, connects))
    ]
  ]

  pub constructed :
      ((e : Exception) × Fails
        × ((construct_client domain type protocol addr port (new_process first)).0 ≡ throw e))
      ⊎ ((evfd fd : ℕ) × (construct_client domain type protocol addr port (new_process first)
            ≡ (ok tt, connected_process evfd fd)))
  unfolding construct_client set_name get_color monad os_call
  constructed = elim (Option-cases (os.eventfd_result (word_read ∷ asked))) [
    | inl fails ↦ inl (runtime_error "eventfd error\n", no_evfd fails, ground (arith, fails))
    | inr (evfd, made) ↦ elim (Option-cases (os.socket_result with_evfd)) [
      | inl fails ↦ inl (
        runtime_error "Failed to open socket - Client\n",
        no_socket fails,
        ground (arith, made, fails),
      )
      | inr (fd, opens) ↦ elim (connecting evfd fd made opens) [
        | inl failed ↦ inl failed
        | inr e ↦ inr (evfd, fd, e)
      ]
    ]
  ]

  -- The process after the first round of its sending loop.
  abbrev pub asking_process : ℕ → ℕ → Process
  asking_process evfd fd = record (connected_process evfd fd) {
    client = record (joined given_name evfd fd) { init_req = true };
    msg = first_msg given_name;
    trace =
        sent (pos fd) (get_concatenated_msg (first_msg given_name))
        ∷ connected_to (pos fd) addr port
        ∷ with_socket;
  }

  asks :
      (em : EpollManager) (evfd fd n : ℕ)
      → is_empty given_name ≡ false
      → os.send_result
          (connected_to (pos fd) addr port ∷ with_socket)
          (pos fd)
          (get_concatenated_msg (first_msg given_name))
        ≡ some n
      → send_round em (connected_process evfd fd) ≡ (ok em, asking_process evfd fd)
  unfolding send_round send_msg monad os_call
  asks em evfd fd n filled sends = ground (arith, filled, sends)

  -- The constructor of the client throws because a call of it fails, or it has read a word and
  -- connected to the address it was given; then the first round of the sending loop asks to be
  -- initialised, in white and under the name that the word gives, which is the word up to its
  -- first zero byte, and does nothing else. That name is not empty, and sending succeeds.
  pub construct_client-asks :
      (em : EpollManager)
      → is_empty given_name ≡ false
      → ((t : Trace) (fd : ℤ) (text : Bytes) → (n : ℕ) × (os.send_result t fd text ≡ some n))
      → ((e : Exception) × Fails
          × ((construct_client domain type protocol addr port (new_process first)).0 ≡ throw e))
        ⊎ ((evfd fd : ℕ) × (construct_client domain type protocol addr port (new_process first)
              ≡ (ok tt, connected_process evfd fd))
            × (send_round em (connected_process evfd fd) ≡ (ok em, asking_process evfd fd)))
  construct_client-asks em filled sends = elim constructed [
    | inl failed ↦ inl failed
    | inr (evfd, fd, e) ↦
        let (n, done) = sends _ _ _ in inr (evfd, fd, e, asks em evfd fd n filled done)
  ]
