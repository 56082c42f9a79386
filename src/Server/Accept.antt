-- ===== src/Server/Accept.antt =====
-- `accept_client` after the kernel has handed out a socket: it is seated, or it is closed again.
use chat_app.Common.{
  ℕ, ◌≡◌, ◌⊎◌, refl, inl, inr, Bool, true, false, not, [], ◌∷◌, Option, none, some, set, ℤ, pos,
  minus_one, is_negative, add32, to_int32, Exception, Outcome, ok, throw, M, monad, ◌>>=◌, ◌>>◌,
  gets, when, raise, bit_or, runtime_error,
}
use chat_app.Resources.{initial_state}
use chat_app.Kernel.{Kernel, Trace, Accepted, closed, accepted_from, flags_read, flags_set, close}
use chat_app.Queues.{StringQueue}
use chat_app.State.{ClientData, Server, App, os_call}
use chat_app.Slots.{free_slot}
use chat_app.Server.{accept_client, accepted, seat, with_flags, o_nonblock}

module _ {Q : Type 0} ⦃queue : StringQueue Q⦄ where
  -- The new client sits in the first free slot, with the next identifier and nothing to send.
  pub record Seated (sv : Server Q) (next_id n : ℕ) (r : Outcome (ℤ × ℤ) × App Q) : Type 0 where
    pub slot : ℕ
    pub client : ClientData Q
    pub first_free : free_slot sv.clients ≡ some slot
    pub table : r.1.server.clients ≡ set sv.clients slot (some client)
    pub result : r.0 ≡ ok (pos n, to_int32 next_id)
    pub fd : client.fd ≡ pos n
    pub id : client.personal_id ≡ to_int32 next_id
    pub state : client.init_state ≡ initial_state
    pub no_texts : queue.contents client.send_queue ≡ []
    pub next : r.1.next_id ≡ add32 next_id 1

  -- The server is as before and the socket is closed: there was no room, or a call failed.
  pub record Refused (sv : Server Q) (next_id n : ℕ) (r : Outcome (ℤ × ℤ) × App Q) : Type 0 where
    pub earlier : Trace
    pub server : r.1.server ≡ sv
    pub next : r.1.next_id ≡ next_id
    pub shut : r.1.trace ≡ closed (pos n) ∷ earlier
    pub why :
        ((free_slot sv.clients ≡ none) × (r.0 ≡ ok (minus_one, minus_one)))
        ⊎ ((e : Exception) × (r.0 ≡ throw e))

  abbrev pub Settles : App Q → ℕ → Outcome (ℤ × ℤ) × App Q → Type 0
  Settles s n r = Seated s.server s.next_id n r ⊎ Refused s.server s.next_id n r

module _ {Q : Type 0} ⦃queue : StringQueue Q⦄ ⦃os : Kernel⦄ where
  seat-Settles :
      (n : ℕ) (s : App Q) (o : Option ℕ)
      → free_slot s.server.clients ≡ o
      → Settles s n (seat (pos n) o s)
  unfolding monad os_call
  seat-Settles n s none e =
      inr
        (record { earlier = s.trace; server = refl; next = refl; shut = refl; why = inl (e, refl) })
  seat-Settles n s (some i) e = inl (record {
    slot = i;
    client = record {
      personal_id = to_int32 s.next_id;
      fd = pos n;
      name = [];
      color_id = pos (os.color_result s.trace);
      init_state = initial_state;
      send_queue = queue.new_queue;
    };
    first_free = e;
    table = refl;
    result = refl;
    fd = refl;
    id = refl;
    state = refl;
    no_texts = queue.contents_new;
    next = refl;
  })

  abbrev admit : ℕ → M (App Q) (ℤ × ℤ)
  admit n = gets (λ s. free_slot s.server.clients) >>= λ slot. seat (pos n) slot

  admit-Settles : (n : ℕ) (s : App Q) → Settles s n (admit n s)
  unfolding monad
  admit-Settles n s = seat-Settles n s (free_slot s.server.clients) refl

  -- After a call has failed, the socket is closed and the exception thrown.
  failed :
      (n : ℕ) (e : Exception) (s : App Q) → Settles s n ((os_call (close (pos n)) >> raise e) s)
  unfolding monad os_call
  failed n e s =
      inr
        (record { earlier = s.trace; server = refl; next = refl; shut = refl; why = inr (e, refl) })

  set-Settles :
      (n : ℕ) (done : Bool) (s : App Q)
      → Settles s n (
          (when (not done) (os_call (close (pos n)) >> raise (runtime_error "Failed fcntl call\n"))
              >> admit n)
            s)
  unfolding monad os_call
  set-Settles n true s = admit-Settles n s
  set-Settles n false s = failed n (runtime_error "Failed fcntl call\n") s

  flags-Settles :
      (n : ℕ) (r : Option ℕ) (s : App Q) → Settles s n ((with_flags (pos n) r >> admit n) s)
  unfolding monad os_call
  flags-Settles n none s = failed n (runtime_error "Failed to get flags on client\n") s
  flags-Settles n (some flags) s =
      set-Settles n (os.set_flags_result s.trace (pos n) (bit_or flags o_nonblock))
        (record s { trace = flags_set (pos n) (bit_or flags o_nonblock) ∷ s.trace })

  accepted-Settles : (b : Bool) (n : ℕ) (s : App Q) → Settles s n (accepted b (Accepted.socket n) s)
  unfolding monad os_call
  accepted-Settles true n s =
      flags-Settles n (os.flags_result s.trace (pos n))
        (record s { trace = flags_read (pos n) ∷ s.trace })
  accepted-Settles false n s = admit-Settles n s

  pub accept_client-Settles :
      (b : Bool) (n : ℕ) (s : App Q)
      → is_negative s.server.sv_socket ≡ false
      → os.accept_result s.trace s.server.sv_socket ≡ Accepted.socket n
      → Settles s n (accept_client b s)
  unfolding accept_client monad os_call
  accept_client-Settles b n s listening e =
      rw (listening, e)
        (accepted-Settles b n (record s { trace = accepted_from s.server.sv_socket ∷ s.trace }))
