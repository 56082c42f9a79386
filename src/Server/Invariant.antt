-- ===== src/Server/Invariant.antt =====
-- The table of clients: its size, and the counter of connections.
use chat_app.Common.{
  ℕ, ◌≡◌, refl, Bool, Option, none, some, [], arith, to_int32, length, length-set, ℤ, pos, M, monad,
  deref, ◌>>=◌, ◌>>◌,
}
use chat_app.Common.Keeps.{Keeps, Keeps-bind, Keeps-read, keeps_rules}
use chat_app.Resources.{max_clients, initial_state}
use chat_app.Kernel.{Kernel, Trace, Accepted, close}
use chat_app.Queues.{StringQueue}
use chat_app.State.{ClientData, Server, App, occupant, occupied, os_call, on_server}
use chat_app.Slots.{free_slot, find_client}
use chat_app.Slots.Counts.{
  occupied-le-length, free_slot-IsFree, length-reset_client, occupied-reset_client,
}
use chat_app.Server.{accept_client, disconnect_client, seat, accepted, with_flags, without}

-- The array has its fixed size, and `nr_of_connections` counts its clients.
pub record IsValid {Q : Type 0} (sv : Server Q) : Type 0 where
  pub size : length sv.clients ≡ max_clients
  pub counted : sv.nr_of_connections ≡ occupied sv.clients

module _ {Q : Type 0} where
  without-IsValid :
      (id : ℤ) (sv : Server Q) (i : ℕ)
      → find_client id sv.clients ≡ some i
      → IsValid sv
      → IsValid (without id sv)
  without-IsValid id sv i e v = ground (
    arith,
    length-reset_client id sv.clients,
    occupied-reset_client id sv.clients i e,
    occupied-le-length sv.clients,
  )

  -- Calls of the system leave the table alone.
  pub Keeps-os_call :
      {A : Type 0} (m : M Trace A) → Keeps {S = App Q} (λ s. IsValid s.server) (os_call m)
  unfolding os_call
  Keeps-os_call m = record { at = λ s h. h }

  without-found :
      (id : ℤ) (s : App Q)
      → (r : Option ℕ) → find_client id s.server.clients ≡ r
      → IsValid s.server
      → IsValid (disconnect_client id s).1.server
  unfolding disconnect_client monad os_call
  without-found id s none e v = rw e v
  without-found id s (some i) e v = rw e (removed (occupant s.server.clients i))
    where
      removed :
          (o : Option (ClientData Q))
          → IsValid
              ((deref o >>= λ client. (os_call (close client.fd) >> on_server (without id)))
                s).1.server
      removed none = v
      removed (some c) = without-IsValid id s.server i e v

  -- Disconnecting a client, or failing to, keeps the table valid.
  pub disconnect_client-IsValid :
      (id : ℤ) (s : App Q) → IsValid s.server → IsValid (disconnect_client id s).1.server
  disconnect_client-IsValid id s v = without-found id s (find_client id s.server.clients) refl v

module _ {Q : Type 0} ⦃queue : StringQueue Q⦄ ⦃os : Kernel⦄ where
  seat-IsValid :
      (fd : ℤ) (s : App Q) (o : Option ℕ)
      → free_slot s.server.clients ≡ o
      → IsValid s.server
      → IsValid (seat fd o s).1.server
  unfolding monad os_call
  seat-IsValid fd s none e v = v
  seat-IsValid fd s (some i) e v = ground (
    arith,
    (free_slot-IsFree s.server.clients i e).fills client,
    (free_slot-IsFree s.server.clients i e).inside,
    length-set s.server.clients i (some client),
    occupied-le-length s.server.clients,
  )
    where
      client : ClientData Q
      client = record {
        personal_id = to_int32 s.next_id;
        fd = fd;
        name = [];
        color_id = pos (os.color_result s.trace);
        init_state = initial_state;
        send_queue = queue.new_queue;
      }

  with_flags-Keeps :
      (fd : ℤ) (r : Option ℕ) → Keeps {S = App Q} (λ s. IsValid s.server) (with_flags fd r)
  with_flags-Keeps fd none = search (keeps_rules, Keeps-os_call)
  with_flags-Keeps fd (some flags) = search (keeps_rules, Keeps-os_call) depth 8

  accepted-Keeps :
      (b : Bool) (r : Accepted) → Keeps {S = App Q} (λ s. IsValid s.server) (accepted b r)
  accepted-Keeps b Accepted.again = search keeps_rules
  accepted-Keeps b Accepted.failed = search keeps_rules
  accepted-Keeps b (Accepted.socket n) =
      Keeps-bind _ _ (search (keeps_rules, Keeps-os_call, with_flags-Keeps))
        λ _. Keeps-read _ _ λ s v. seat-IsValid (pos n) s (free_slot s.server.clients) refl v

  accept_client-Keeps : (b : Bool) → Keeps {S = App Q} (λ s. IsValid s.server) (accept_client b)
  unfolding accept_client
  accept_client-Keeps b = search (keeps_rules, Keeps-os_call, accepted-Keeps)

  -- Accepting a client keeps the table valid, however the call ends.
  pub accept_client-IsValid :
      (b : Bool) (s : App Q) → IsValid s.server → IsValid (accept_client b s).1.server
  accept_client-IsValid b = (accept_client-Keeps b).at
