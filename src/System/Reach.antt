-- ===== src/System/Reach.antt =====
-- The states that the server process reaches when its threads take turns, round by round.
use chat_app.Common.{ℕ, zero, suc, ◌^◌, ◌<◌, ◌≤◌, ◌≡◌, refl, List, none, some, arith, ℤ, replicate}
use chat_app.Resources.{max_clients}
use chat_app.Kernel.{Kernel, Trace}
use chat_app.Epoll.{EpollManager}
use chat_app.Queues.{StringQueue}
use chat_app.State.{ClientData, App, occupant, new_server, new_manager}
use chat_app.Slots.{find_client}
use chat_app.Slots.Counts.{occupied-le-length}
use chat_app.Server.Invariant.{IsValid}
use chat_app.Server.Identifiers.{IsFresh, find_client_unique}
use chat_app.Listener.{listener_round}
use chat_app.WorkerLoop.{Served, Locals, worker_round}
use chat_app.System.Closed.{served_closed, listened_closed}
use chat_app.System.Sound.{IsSound, accept-IsSound, sound_closed}
use chat_app.System.Fresh.{fresh_closed}
use chat_app.System.Rounds.{worker_round-Keeps, listener_round-Keeps}
use chat_app.System.Admission.{listener_round-IsFresh}

module _ {Q : Type 0} ⦃queue : StringQueue Q⦄ ⦃os : Kernel⦄ where
  -- The start: an empty table, no worker, empty queues, and the socket and
  -- the calls of the set-up.
  abbrev pub started : ℤ → Trace → App Q
  started sv_socket t = record {
    server = record new_server { sv_socket = sv_socket };
    manager = new_manager;
    next_id = 0;
    trace = t;
  }

  -- One thread after another makes a round of its loop, with whatever events it was told of. The
  -- listener makes one only while fewer than 2^31 identifiers have been handed out.
  pub data IsReachable : App Q → Type 0 where
    start : (sv_socket : ℤ) (t : Trace) → IsReachable (started sv_socket t)
    listener :
        {s : App Q} (em : EpollManager) (ret sv_socket evfd : ℤ)
        → s.next_id < 2 ^ 31
        → IsReachable s
        → IsReachable (listener_round em ret sv_socket evfd s).1
    worker :
        {s : App Q} (fuel : ℕ) (em : EpollManager) (ret : ℤ) (personal_index : ℕ)
        (personal_evfd evfd : ℤ) (clients : List Served) (l : Locals)
        → IsReachable s
        → IsReachable (worker_round fuel em ret personal_index personal_evfd evfd clients l s).1

  reached-IsSound : {s : App Q} → IsReachable s → IsSound s
  reached-IsSound (start sv_socket t) = record { size = refl; counted = refl }
  reached-IsSound (listener em ret sv_socket evfd small r) =
      (listener_round-Keeps {P = IsSound} accept-IsSound em ret sv_socket evfd).at _
        (reached-IsSound r)
  reached-IsSound (worker fuel em ret j personal_evfd evfd clients l r) =
      (worker_round-Keeps {P = IsSound} fuel em ret j personal_evfd evfd clients l).at _
        (reached-IsSound r)

  nobody : (i : ℕ) (c : ClientData Q) → occupant (replicate max_clients none) i ≡ some c → ⊥
  nobody zero c e = cc
  nobody (suc zero) c e = cc
  nobody (suc (suc zero)) c e = cc
  nobody (suc (suc (suc zero))) c e = cc
  nobody (suc (suc (suc (suc zero)))) c e = cc
  nobody (suc (suc (suc (suc (suc zero))))) c e = cc
  nobody (suc (suc (suc (suc (suc (suc i)))))) c e = cc

  reached-IsFresh : {s : App Q} → IsReachable s → IsFresh s
  reached-IsFresh (start sv_socket t) = record {
    issued = λ i c e. absurd (nobody i c e);
    unique = λ i j c d e. absurd (nobody i c e);
  }
  reached-IsFresh (listener em ret sv_socket evfd small r) =
      listener_round-IsFresh em ret sv_socket evfd _ small (reached-IsFresh r)
  reached-IsFresh (worker fuel em ret j personal_evfd evfd clients l r) =
      (worker_round-Keeps {P = IsFresh} fuel em ret j personal_evfd evfd clients l).at _
        (reached-IsFresh r)

  -- However the rounds of the listener and of the workers follow each other, and however each ends,
  -- the table keeps its slots, the counter of connections counts the occupied ones, there are never
  -- more than MAX_CLIENTS, and every client is found under its own identifier. The listener makes a
  -- round only while fewer than 2^31 identifiers have been handed out.
  pub IsReachable-IsValid :
      (s : App Q)
      → IsReachable s
      → IsValid s.server
        × (s.server.nr_of_connections ≤ max_clients)
        × ((i : ℕ) (c : ClientData Q)
            → occupant s.server.clients i ≡ some c
            → find_client c.personal_id s.server.clients ≡ some i)
  IsReachable-IsValid s r =
      let v = reached-IsSound r in
      (
        v,
        ground (arith, occupied-le-length s.server.clients, v.size, v.counted),
        λ i c at. find_client_unique s.server.clients i c (reached-IsFresh r).unique at,
      )
