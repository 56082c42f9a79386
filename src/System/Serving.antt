-- ===== src/System/Serving.antt =====
-- What a worker does keeps every predicate of its interface.
use chat_app.Common.{
  ℕ, zero, suc, ◌≡◌, refl, inr, List, [], ◌∷◌, Option, none, some, ℤ, Bool, M, Outcome, monad, skip,
  ◌>>◌, ok,
}
use chat_app.Common.Keeps.{Keeps, Keeps-bind, Keeps-modify, keeps_rules}
use chat_app.Text.{Bytes}
use chat_app.Message.{ServerMessage}
use chat_app.Kernel.{Kernel, EventRead, counter, would_block, bad}
use chat_app.Epoll.{EpollManager}
use chat_app.Queues.{StringQueue}
use chat_app.State.{ClientData, inc_state, set_state, Manager, App, occupant, on_server, put_client}
use chat_app.State.Access.{reading}
use chat_app.Server.{send_msg, get_client_ref}
use chat_app.Handshake.{process_client_state, on_input, on_output, drain}
use chat_app.WorkerLoop.{
  Served, Request, Locals, take_request, pop_request, pop_listener_to_worker, on_wake_up,
  worker_process_listener_to_worker_q, mark_closed, read_client, write_client, serve_client,
  serve_clients, signal_disconnect, remove_disconnected, join_request,
}
use chat_app.System.Closed.{IsServed, os_call-Keeps}
use chat_app.System.Table.{update_at-Keeps, send_msg-Keeps, receive_msg-Keeps, worker_push-Keeps}

module _ {Q : Type 0} where
  inc_state-id : (c : ClientData Q) → (inc_state c).personal_id ≡ c.personal_id
  unfolding inc_state
  inc_state-id c = refl

  inc_state-queue : (c : ClientData Q) → (inc_state c).send_queue ≡ c.send_queue
  unfolding inc_state
  inc_state-queue c = refl

  set_state-queue : (state : ℤ) (c : ClientData Q) → (set_state c state).send_queue ≡ c.send_queue
  unfolding set_state
  set_state-queue state c = refl

  set_state-id : (state : ℤ) (c : ClientData Q) → (set_state c state).personal_id ≡ c.personal_id
  unfolding set_state
  set_state-id state c = refl

module _ {Q : Type 0} ⦃queue : StringQueue Q⦄ ⦃os : Kernel⦄ {P : App Q → Type 0}
    ⦃served : IsServed P⦄ where
  drain-Keeps : (fuel i : ℕ) → Keeps P (drain fuel i)
  unfolding monad
  drain-Keeps zero i = search keeps_rules
  drain-Keeps (suc fuel) i =
      reading P i
        (λ c. elim (queue.try_pop c.send_queue) [
          | none ↦ skip
          | some (text, q) ↦
              on_server (put_client i (record c { send_queue = q }))
              >> (send_msg text c.personal_id >> drain fuel i)
        ])
        λ s c at v. next s c at v (drain-Keeps fuel i) (queue.try_pop c.send_queue) refl
    where
      next :
          (s : App Q) (c : ClientData Q)
          → occupant s.server.clients i ≡ some c
          → P s
          → Keeps P (drain fuel i)
          → (o : Option (Bytes × Q)) → queue.try_pop c.send_queue ≡ o
          → P
              (elim o as (λ _. M (App Q) (Unit {0})) [
                | none ↦ skip
                | some (text, q) ↦
                    on_server (put_client i (record c { send_queue = q }))
                    >> (send_msg text c.personal_id >> drain fuel i)
              ]
                s).1
      next s c at v rest none e = v
      next s c at v rest (some (text, q)) e =
          (Keeps-bind (send_msg text c.personal_id) (λ _. drain fuel i)
              (send_msg-Keeps text c.personal_id) (λ _. rest)).at
            (record s { server = put_client i (record c { send_queue = q }) s.server })
            (served.rewritten i c (record c { send_queue = q }) s at refl (inr (text, e)) v)

  on_input-Keeps :
      (i : ℕ) (state : ℤ) (msg : ServerMessage) (evfd : ℤ) → Keeps P (on_input i state msg evfd)
  on_input-Keeps i state msg evfd =
      search
        (
          keeps_rules, update_at-Keeps, inc_state-id, inc_state-queue, send_msg-Keeps,
          worker_push-Keeps,
        )
        depth 14

  on_output-Keeps :
      (fuel i : ℕ) (state : ℤ) (msg : ServerMessage) → Keeps P (on_output fuel i state msg)
  on_output-Keeps fuel i state msg =
      search
        (keeps_rules, update_at-Keeps, inc_state-id, inc_state-queue, send_msg-Keeps, drain-Keeps)
        depth 14

  process_client_state-Keeps :
      (fuel : ℕ) (input : Bool) (msg : ServerMessage) (i : ℕ) (evfd : ℤ)
      → Keeps P (process_client_state fuel input msg i evfd)
  unfolding process_client_state
  process_client_state-Keeps fuel input msg i evfd =
      search (keeps_rules, update_at-Keeps, on_input-Keeps, on_output-Keeps) depth 12

  take_request-Keeps : (em : EpollManager) (j : ℕ) (text : Bytes) → Keeps P (take_request em j text)
  take_request-Keeps em j text =
      search (keeps_rules, os_call-Keeps, Keeps-modify, served.managed) depth 14

  pop_request-Keeps : (em : EpollManager) (j : ℕ) → Keeps P (pop_request em j)
  pop_request-Keeps em j = record {
    at = λ s v. popped s v (pop_listener_to_worker queue s.manager);
  }
    where
      popped :
          (s : App Q)
          → P s
          → (o : Option (Bytes × Manager Q))
          → P
              (elim o as (λ _. Outcome Request × App Q) [
                | none ↦ (ok none, s)
                | some (text, m) ↦ take_request em j text (record s { manager = m })
              ]).1
      popped s v none = v
      popped s v (some (text, m)) =
          (take_request-Keeps em j text).at (record s { manager = m }) (served.managed m s v)

  on_wake_up-Keeps : (r : EventRead) (em : EpollManager) (j : ℕ) → Keeps P (on_wake_up r em j)
  on_wake_up-Keeps counter em j = pop_request-Keeps em j
  on_wake_up-Keeps would_block em j = search keeps_rules
  on_wake_up-Keeps bad em j = search keeps_rules

  pub process_queue-Keeps :
      (em : EpollManager) (j : ℕ) (evfd : ℤ)
      → Keeps P (worker_process_listener_to_worker_q em j evfd)
  unfolding worker_process_listener_to_worker_q
  process_queue-Keeps em j evfd = search (keeps_rules, os_call-Keeps, on_wake_up-Keeps)

  mark_closed-Keeps : (id : ℤ) → Keeps P (mark_closed id)
  unfolding get_client_ref
  mark_closed-Keeps id = search (keeps_rules, update_at-Keeps, set_state-id, set_state-queue)

  read_client-Keeps :
      (client : Served) (ref : Option ℕ) (l : Locals) (evfd : ℤ)
      → Keeps P (read_client client ref l evfd)
  read_client-Keeps client none l evfd =
      search (keeps_rules, receive_msg-Keeps, mark_closed-Keeps) depth 9
  read_client-Keeps client (some i) l evfd =
      search (keeps_rules, receive_msg-Keeps, mark_closed-Keeps, process_client_state-Keeps) depth
        12

  write_client-Keeps :
      (fuel : ℕ) (em : EpollManager) (ret : ℤ) (client : Served) (ref : Option ℕ) (l : Locals)
      (evfd : ℤ)
      → Keeps P (write_client fuel em ret client ref l evfd)
  write_client-Keeps fuel em ret client ref l evfd =
      search (keeps_rules, process_client_state-Keeps) depth 12

  serve_client-Keeps :
      (fuel : ℕ) (em : EpollManager) (ret evfd : ℤ) (l : Locals) (client : Served)
      → Keeps P (serve_client fuel em ret evfd l client)
  unfolding serve_client get_client_ref
  serve_client-Keeps fuel em ret evfd l client =
      search (keeps_rules, read_client-Keeps, write_client-Keeps) depth 12

  pub serve_clients-Keeps :
      (fuel : ℕ) (em : EpollManager) (ret evfd : ℤ) (clients : List Served) (l : Locals)
      → Keeps P (serve_clients fuel em ret evfd clients l)
  unfolding serve_clients
  serve_clients-Keeps fuel em ret evfd [] l = search keeps_rules
  serve_clients-Keeps fuel em ret evfd (client ∷ clients) l =
      Keeps-bind _ _ (serve_client-Keeps fuel em ret evfd l client)
        λ l'. serve_clients-Keeps fuel em ret evfd clients l'

  signal_disconnect-Keeps :
      (j : ℕ) (evfd : ℤ) (client : Served) (msg : ServerMessage)
      → Keeps P (signal_disconnect j evfd client msg)
  unfolding get_client_ref
  signal_disconnect-Keeps j evfd client msg = search (keeps_rules, worker_push-Keeps) depth 12

  pub remove_disconnected-Keeps :
      (j : ℕ) (evfd : ℤ) (clients : List Served) (msg : ServerMessage)
      → Keeps P (remove_disconnected j evfd clients msg)
  unfolding remove_disconnected
  remove_disconnected-Keeps j evfd [] msg = search keeps_rules
  remove_disconnected-Keeps j evfd (client ∷ clients) msg =
      Keeps-bind _ _ (signal_disconnect-Keeps j evfd client msg) λ r.
        Keeps-bind _ _ (remove_disconnected-Keeps j evfd clients r.1) λ rest. search keeps_rules

  pub join_request-Keeps : (clients : List Served) (r : Request) → Keeps P (join_request clients r)
  join_request-Keeps clients none = search keeps_rules
  join_request-Keeps clients (some new) = search keeps_rules
