-- ===== src/System/Listening.antt =====
-- What the listener does keeps every predicate of the interface.
use chat_app.Common.{
  ℕ, List, [], ◌∷◌, Option, none, some, ℤ, M, Outcome, skip, Exception, runtime_error,
  server_full_exception, queue_exception, client_connection_exception, thread_managing_exception,
  invalid_argument, out_of_range, ok, ◌>>◌,
}
use chat_app.Common.Keeps.{Keeps, Keeps-bind, Keeps-modify, Keeps-gets, Keeps-lift, keeps_rules}
use chat_app.Text.{Bytes}
use chat_app.Message.{ServerMessage}
use chat_app.Kernel.{Kernel, EventRead, counter, would_block, bad}
use chat_app.Queues.{StringQueue}
use chat_app.State.{Worker, Manager, App}
use chat_app.Server.{set_is_done, get_connected_ids}
use chat_app.Manager.{
  process_new_client, balance, emplace_new_worker, assign_client_to_worker, new_evfd, join_old,
}
use chat_app.Listener.{
  client_disconnected, check_worker, dispatch, deliver, pop_and_deliver, pop_worker_to_listener,
  on_read, listener_process_worker_to_listener_q, quit_server, on_accept_error, report,
}
use chat_app.System.Closed.{IsListened, call-Keeps, disconnect_client-Keeps}
use chat_app.System.Table.{
  worker_slot-Keeps, worker_client_disconnect-Keeps, unicast_repeated-Keeps,
}

module _ {Q : Type 0} ⦃queue : StringQueue Q⦄ ⦃os : Kernel⦄ {P : App Q → Type 0}
    ⦃listened : IsListened P⦄ where
  new_evfd-Keeps : (o : Option ℕ) → Keeps P (new_evfd o)
  new_evfd-Keeps none = search keeps_rules
  new_evfd-Keeps (some n) = search keeps_rules

  join_old-Keeps : (i : ℕ) (o : Option Worker) → Keeps P (join_old i o)
  join_old-Keeps i none = search keeps_rules
  join_old-Keeps i (some w) = search (keeps_rules, call-Keeps)

  assign-Keeps : (i : ℕ) (socket id evfd : ℤ) → Keeps P (assign_client_to_worker i socket id evfd)
  unfolding assign_client_to_worker
  assign-Keeps i socket id evfd =
      search (keeps_rules, call-Keeps, Keeps-modify, listened.managed) depth 9

  emplace-Keeps : (socket id : ℤ) (n : ℕ) (evfd : ℤ) → Keeps P (emplace_new_worker socket id n evfd)
  unfolding emplace_new_worker
  emplace-Keeps socket id n evfd =
      search
        (
          keeps_rules, call-Keeps, Keeps-modify, listened.managed, new_evfd-Keeps, join_old-Keeps,
          worker_slot-Keeps,
        )
        depth 14

  balance-Keeps :
      (o : Option ℕ) (min : ℕ) (socket id evfd : ℤ) → Keeps P (balance o min socket id evfd)
  balance-Keeps none min socket id evfd = emplace-Keeps socket id 0 evfd
  balance-Keeps (some i) min socket id evfd =
      search (keeps_rules, Keeps-modify, listened.managed, assign-Keeps, emplace-Keeps) depth 14

  pub process_new_client-Keeps : (socket id evfd : ℤ) → Keeps P (process_new_client socket id evfd)
  unfolding process_new_client
  process_new_client-Keeps socket id evfd =
      search (keeps_rules, emplace-Keeps, balance-Keeps) depth 9

  set_is_done-Keeps : Keeps P set_is_done
  unfolding set_is_done
  set_is_done-Keeps =
      Keeps-bind _ _ (Keeps-gets _)
        λ done. Keeps-bind _ _ (search keeps_rules) λ _. Keeps-modify _ listened.finished

  check_worker-Keeps : (o : Option Worker) → Keeps P (check_worker o)
  check_worker-Keeps none = search keeps_rules
  check_worker-Keeps (some w) = search keeps_rules

  client_disconnected-Keeps :
      (msg : ServerMessage) (ids : List ℤ) → Keeps P (client_disconnected msg ids)
  unfolding client_disconnected
  client_disconnected-Keeps msg ids =
      search
        (
          keeps_rules, disconnect_client-Keeps, worker_slot-Keeps, check_worker-Keeps,
          unicast_repeated-Keeps, worker_client_disconnect-Keeps,
        )
        depth 14

  dispatch-Keeps :
      (msg : ServerMessage) (ids : List ℤ) (text : Bytes) → Keeps P (dispatch msg ids text)
  dispatch-Keeps msg ids text =
      search (keeps_rules, client_disconnected-Keeps, unicast_repeated-Keeps) depth 12

  deliver-Keeps : (text : Bytes) → Keeps P (deliver text)
  unfolding get_connected_ids
  deliver-Keeps text =
      Keeps-bind _ _ (Keeps-lift _) λ msg. Keeps-bind _ _ (Keeps-gets _) λ ids. to ids msg
    where
      to :
          (ids : List ℤ) (msg : ServerMessage)
          → Keeps P (elim ids as (λ _. M (App Q) (Unit {0})) [
            | [] ↦ skip
            | id ∷ ids' ↦ dispatch msg (id ∷ ids') text
          ])
      to [] msg = search keeps_rules
      to (id ∷ ids) msg = dispatch-Keeps msg (id ∷ ids) text

  pop_and_deliver-Keeps : Keeps P pop_and_deliver
  pop_and_deliver-Keeps = record { at = λ s v. popped s v (pop_worker_to_listener queue s.manager) }
    where
      popped :
          (s : App Q)
          → P s
          → (o : Option (Bytes × Manager Q))
          → P
              (elim o as (λ _. Outcome (Unit {0}) × App Q) [
                | none ↦ (ok tt, s)
                | some (text, m) ↦ deliver text (record s { manager = m })
              ]).1
      popped s v none = v
      popped s v (some (text, m)) =
          (deliver-Keeps text).at (record s { manager = m }) (listened.managed m s v)

  on_read-Keeps : (r : EventRead) → Keeps P (on_read r)
  on_read-Keeps counter = pop_and_deliver-Keeps
  on_read-Keeps would_block = search keeps_rules
  on_read-Keeps bad = search keeps_rules

  pub process_queue-Keeps : (evfd : ℤ) → Keeps P (listener_process_worker_to_listener_q evfd)
  unfolding listener_process_worker_to_listener_q
  process_queue-Keeps evfd = search (keeps_rules, call-Keeps, on_read-Keeps)

  pub quit_server-Keeps : (o : Option Bytes) → Keeps P (quit_server o)
  quit_server-Keeps none = search keeps_rules
  quit_server-Keeps (some line) =
      search (keeps_rules, set_is_done-Keeps, Keeps-modify, listened.managed) depth 12

  reported_end : (first second : Bytes) → Keeps P (do report first; report second; set_is_done)
  reported_end first second = search (keeps_rules, call-Keeps, set_is_done-Keeps)

  pub on_accept_error-Keeps : (e : Exception) → Keeps P (on_accept_error e)
  on_accept_error-Keeps (server_full_exception _) = call-Keeps _
  on_accept_error-Keeps (thread_managing_exception _) = call-Keeps _
  on_accept_error-Keeps (runtime_error _) = reported_end _ _
  on_accept_error-Keeps (queue_exception _) = reported_end _ _
  on_accept_error-Keeps (client_connection_exception _) = reported_end _ _
  on_accept_error-Keeps (invalid_argument _) = reported_end _ _
  on_accept_error-Keeps (out_of_range _) = reported_end _ _
