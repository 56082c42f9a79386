-- ===== src/System/Ending.antt =====
-- The end of the server: the quit message of the console, and the loops of all threads after it.
use chat_app.Common.{
  ℕ, suc, ◌<◌, ◌≡◌, refl, true, false, List, [], ◌∷◌, ◌++◌, some, ℤ, length, ok, monad,
}
use chat_app.Text.{Bytes, codes}
use chat_app.Message.{empty_msg, get_concatenated_msg}
use chat_app.Resources.{Actions, get_action, quit_msg, queue_size}
use chat_app.Kernel.{Kernel}
use chat_app.Epoll.{EpollManager}
use chat_app.Queues.{StringQueue}
use chat_app.State.{App}
use chat_app.Server.{check_is_done, set_is_done}
use chat_app.Server.Stopping.{IsStopped, disconnect_client-IsStopped, accept_client-IsStopped}
use chat_app.Listener.{quit_server, listener_round, listener_rounds}
use chat_app.WorkerLoop.{Served, Locals, worker_round, worker_rounds}
use chat_app.System.Closed.{IsClosed, served_closed, listened_closed}
use chat_app.System.Rounds.{worker_round-Keeps, listener_round-Keeps}

-- The message that is to tell the clients.
abbrev pub goodbye : Bytes
goodbye = get_concatenated_msg (record empty_msg {
  action = get_action Actions.sv_disconnected;
  msg_content = codes "SERVER DISCONNECTED";
})

module _ {Q : Type 0} where
  instance pub stopped_closed : IsClosed {Q = Q} IsStopped
  stopped_closed = record {
    called = λ t s h. h;
    managed = λ m s h. h;
    rewritten = λ i c c' s at same h. h;
    finished = λ s h. refl;
    disconnected = disconnect_client-IsStopped;
  }

module _ {Q : Type 0} ⦃queue : StringQueue Q⦄ ⦃os : Kernel⦄ where
  -- The second state comes of the first by rounds of the listener and of the workers, in any order.
  pub data Later (s : App Q) : App Q → Type 0 where
    now : Later s s
    listener :
        {s' : App Q} (em : EpollManager) (ret sv_socket evfd : ℤ)
        → Later s s'
        → Later s (listener_round em ret sv_socket evfd s').1
    worker :
        {s' : App Q} (fuel : ℕ) (em : EpollManager) (ret : ℤ) (personal_index : ℕ)
        (personal_evfd evfd : ℤ) (clients : List Served) (l : Locals)
        → Later s s'
        → Later s (worker_round fuel em ret personal_index personal_evfd evfd clients l s').1

  Later-IsStopped : {s s' : App Q} → IsStopped s → Later s s' → IsStopped s'
  Later-IsStopped h now = h
  Later-IsStopped h (listener em ret sv_socket evfd r) =
      (listener_round-Keeps {P = IsStopped} accept_client-IsStopped em ret sv_socket evfd).at _
        (Later-IsStopped h r)
  Later-IsStopped h (worker fuel em ret j personal_evfd evfd clients l r) =
      (worker_round-Keeps {P = IsStopped} fuel em ret j personal_evfd evfd clients l).at _
        (Later-IsStopped h r)

  stopped_listener :
      (fuel : ℕ) (em : EpollManager) (sv_socket evfd : ℤ) (s : App Q)
      → IsStopped s
      → listener_rounds (suc fuel) em sv_socket evfd s ≡ (ok true, s)
  unfolding listener_rounds check_is_done monad
  stopped_listener fuel em sv_socket evfd s h = rw h

  stopped_worker :
      (fuel : ℕ) (em : EpollManager) (j : ℕ) (personal_evfd evfd : ℤ) (clients : List Served)
      (l : Locals) (s : App Q)
      → IsStopped s
      → worker_rounds (suc fuel) em j personal_evfd evfd clients l s ≡ (ok true, s)
  unfolding worker_rounds check_is_done monad
  stopped_worker fuel em j personal_evfd evfd [] l s h = rw h
  stopped_worker fuel em j personal_evfd evfd (client ∷ clients) l s h = rw h

  quit-IsStopped : (s : App Q) → s.server.done ≡ false → IsStopped (quit_server (some quit_msg) s).1
  unfolding set_is_done monad
  quit-IsStopped s running = rw running

  -- Once the console has given the quit message, whatever rounds the threads still make, and
  -- however these end, the loop of the listener and the loop of every worker stop at their next
  -- test and do nothing more. The server was running before.
  pub quit_server-ends :
      (s s' : App Q)
      → s.server.done ≡ false
      → Later (quit_server (some quit_msg) s).1 s'
      → ((fuel : ℕ) (em : EpollManager) (sv_socket evfd : ℤ)
          → listener_rounds (suc fuel) em sv_socket evfd s' ≡ (ok true, s'))
        × ((fuel : ℕ) (em : EpollManager) (j : ℕ) (personal_evfd evfd : ℤ) (clients : List Served)
              (l : Locals)
            → worker_rounds (suc fuel) em j personal_evfd evfd clients l s' ≡ (ok true, s'))
  quit_server-ends s s' running r =
      let h = Later-IsStopped (quit-IsStopped s running) r in
      (
        λ fuel em sv_socket evfd. stopped_listener fuel em sv_socket evfd s' h,
        λ fuel em j pe evfd clients l. stopped_worker fuel em j pe evfd clients l s' h,
      )

  -- The message that is to tell the clients of the end is put into the queue of the listener and
  -- stays there: the listener, which alone takes texts from that queue, stops at its next test, and
  -- the queues of the clients are as they were. The server was running, and the queue of the
  -- listener not full.
  pub quit_server-undelivered :
      (s : App Q)
      → s.server.done ≡ false
      → length (queue.contents s.manager.q_worker_to_listener) < queue_size
      → let s' = (quit_server (some quit_msg) s).1 in
        (queue.contents s'.manager.q_worker_to_listener
          ≡ queue.contents s.manager.q_worker_to_listener ++ goodbye ∷ [])
        × (s'.server.clients ≡ s.server.clients)
        × ((fuel : ℕ) (em : EpollManager) (sv_socket evfd : ℤ)
            → listener_rounds (suc fuel) em sv_socket evfd s' ≡ (ok true, s'))
  unfolding set_is_done monad
  quit_server-undelivered s running room =
      let s' = (quit_server (some quit_msg) s).1 in
      (
        rw running (queue.push_room s.manager.q_worker_to_listener goodbye room).1,
        rw running,
        λ fuel em sv_socket evfd.
            stopped_listener fuel em sv_socket evfd s' (quit-IsStopped s running),
      )
