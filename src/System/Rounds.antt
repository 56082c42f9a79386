-- ===== src/System/Rounds.antt =====
-- A round of each loop keeps a predicate of the interface that `accept_client` keeps too.
use chat_app.Common.{ℕ, zero, suc, List, ℤ, Bool, true, false, M, pure, ◌>>=◌, ◌>>◌}
use chat_app.Common.Keeps.{Keeps, Keeps-bind, Keeps-gets, Keeps-catch, keeps_rules}
use chat_app.Kernel.{Kernel}
use chat_app.Epoll.{EpollManager, wait_events}
use chat_app.Queues.{StringQueue}
use chat_app.State.{App, os_call}
use chat_app.Server.{accept_client, check_is_done}
use chat_app.Listener.{accept_new_client, listener_round, maybe_round, listener_rounds}
use chat_app.System.Closed.{IsServed, IsListened, call-Keeps}
use chat_app.WorkerLoop.{Served, Locals, worker_round}
use chat_app.System.Listening.{
  process_new_client-Keeps, process_queue-Keeps, quit_server-Keeps, on_accept_error-Keeps,
}
use chat_app.System.Serving.{serve_clients-Keeps, remove_disconnected-Keeps, join_request-Keeps}
use chat_app.System.Serving

module _ {Q : Type 0} ⦃queue : StringQueue Q⦄ ⦃os : Kernel⦄ {P : App Q → Type 0}
    ⦃served : IsServed P⦄ where
  pub worker_round-Keeps :
      (fuel : ℕ) (em : EpollManager) (ret : ℤ) (j : ℕ) (personal_evfd evfd : ℤ)
      (clients : List Served) (l : Locals)
      → Keeps P (worker_round fuel em ret j personal_evfd evfd clients l)
  unfolding worker_round
  worker_round-Keeps fuel em ret j personal_evfd evfd clients l =
      search
        (
          keeps_rules, Serving.process_queue-Keeps, serve_clients-Keeps, remove_disconnected-Keeps,
          join_request-Keeps,
        )
        depth 14

module _ {Q : Type 0} ⦃queue : StringQueue Q⦄ ⦃os : Kernel⦄ {P : App Q → Type 0}
    ⦃listened : IsListened P⦄ (accepts : (b : Bool) → Keeps P (accept_client b)) where
  accept_new_client-Keeps : (evfd : ℤ) → Keeps P (accept_new_client evfd)
  unfolding accept_new_client
  accept_new_client-Keeps evfd =
      Keeps-catch _ _ (search (keeps_rules, accepts, process_new_client-Keeps))
        on_accept_error-Keeps

  pub listener_round-Keeps :
      (em : EpollManager) (ret sv_socket evfd : ℤ) → Keeps P (listener_round em ret sv_socket evfd)
  unfolding listener_round
  listener_round-Keeps em ret sv_socket evfd =
      search
        (keeps_rules, call-Keeps, process_queue-Keeps, quit_server-Keeps, accept_new_client-Keeps)
        depth 12

  maybe_round-Keeps :
      (em : EpollManager) (ret sv_socket evfd : ℤ) → Keeps P (maybe_round em ret sv_socket evfd)
  maybe_round-Keeps em ret sv_socket evfd = search (keeps_rules, listener_round-Keeps)

  pub listener_rounds-Keeps :
      (fuel : ℕ) (em : EpollManager) (sv_socket evfd : ℤ)
      → Keeps P (listener_rounds fuel em sv_socket evfd)
  unfolding listener_rounds check_is_done
  listener_rounds-Keeps zero em sv_socket evfd = search keeps_rules
  listener_rounds-Keeps (suc fuel) em sv_socket evfd =
      Keeps-bind _ _ (Keeps-gets _) λ done. next done (listener_rounds-Keeps fuel)
    where
      next :
          (done : Bool)
          → ((em' : EpollManager) (sv_socket' evfd' : ℤ)
              → Keeps P (listener_rounds fuel em' sv_socket' evfd'))
          → Keeps P (elim done as (λ _. M (App Q) Bool) [
            | true ↦ pure true
            | false ↦ (do
              waited ← os_call (wait_events em)
              maybe_round waited.1 waited.0 sv_socket evfd
              listener_rounds fuel waited.1 sv_socket evfd)
          ])
      next true rest = search keeps_rules
      next false rest = search (keeps_rules, call-Keeps, maybe_round-Keeps, rest) depth 9
