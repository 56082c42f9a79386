-- ===== src/Client/Receiving.antt =====
-- When the client takes the connection for closed.
use chat_app.Common.{
  ℕ, ◌≡◌, refl, sym, subst, ◌⊎◌, inl, inr, Bool, true, false, Option, none, some, ◌==◌,
  if◌then◌else◌, is_negative, M, ok, ◌>>=◌, catch, monad, arith, [], ◌∷◌,
}
use chat_app.Text.{Bytes, codes}
use chat_app.Resources.{cerr_out_err}
use chat_app.Kernel.{Kernel, Trace, received, signalled, logged}
use chat_app.Client.{Client, Process, os_call}
use chat_app.Client.Calls.{receive_msg, receive_msg_from_sv, server_closed, on_received, reported}

module _ ⦃os : Kernel⦄ (s : Process) where
  abbrev got : Option Bytes
  got = os.recv_result s.trace s.client.cl_socket s.frame.msg_len

  abbrev after_recv : Process
  after_recv = record s { trace = received s.client.cl_socket ∷ s.trace }

  -- Nothing was received: the other end has closed, or no data is there yet.
  abbrev pub NothingReceived : Type 0
  NothingReceived =
      (got ≡ some [])
      ⊎ ((got ≡ none)
          × (os.recv_would_block (received s.client.cl_socket ∷ s.trace) s.client.cl_socket ≡ true))

  receives_none :
      is_negative s.client.cl_socket ≡ false → NothingReceived → receive_msg s ≡ (ok 0, after_recv)
  unfolding receive_msg monad os_call
  receives_none socket (inl e) = rw (socket, e)
  receives_none socket (inr (e, b)) = rw (socket, e, b)

  -- The calls once the sending loop has been signalled; that this fails is reported.
  abbrev pub after_signal : Client → Trace → Trace
  after_signal c t =
      if os.write_result t c.cl_event_fd
      then signalled c.cl_event_fd ∷ t
      else logged (cerr_out_err (codes "Failed to write to event fd to wake up send loop\n"))
        ∷ signalled c.cl_event_fd
        ∷ t

  abbrev handle : M Process ℕ → M Process (Unit {0})
  handle m = catch (m >>= λ n. if n == 0 then server_closed else on_received) reported

  abbrev Stopped : Process → Process → Type 0
  Stopped s' s'' =
      (s''.client ≡ record s'.client { done = true })
      × (s''.trace ≡ after_signal s'.client s'.trace)

  closing :
      (s' : Process) (b : Bool)
      → os.write_result s'.trace s'.client.cl_event_fd ≡ b
      → Stopped s' (handle (λ _. (ok 0, s')) s).1
  unfolding monad os_call
  closing s' true written = (ground (arith, written), ground (arith, written))
  closing s' false written = (ground (arith, written), ground (arith, written))

  -- Where nothing was received, `receive_msg_from_sv` stops the client, and signals the sending
  -- loop, which is reported if it fails: also where the call would only have blocked. The socket is
  -- open.
  pub receive_msg_from_sv-NothingReceived :
      is_negative s.client.cl_socket ≡ false
      → NothingReceived
      → ((receive_msg_from_sv s).1.client ≡ record s.client { done = true })
        × ((receive_msg_from_sv s).1.trace
            ≡ after_signal s.client (received s.client.cl_socket ∷ s.trace))
  unfolding receive_msg_from_sv monad
  receive_msg_from_sv-NothingReceived socket h =
      subst (λ r. Stopped after_recv (handle (λ _. r) s).1) (sym (receives_none socket h))
        (closing after_recv _ refl)
