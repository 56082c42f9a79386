-- ===== src/System/Table.antt =====
-- The calls of the server and of the manager keep every predicate of their interface.
use chat_app.Common.{
  ℕ, ◌≡◌, inl, List, [], ◌∷◌, Option, none, some, ℤ, pos, negsuc, not, raise, raise_if,
  thread_managing_exception, queue_exception, Bool, M, monad, pure, ◌>>◌,
}
use chat_app.Common.Keeps.{
  Keeps, Keeps-bind, Keeps-modify, Keeps-undefined, Keeps-gets, keeps_rules,
}
use chat_app.Text.{Bytes}
use chat_app.Message.{ServerMessage}
use chat_app.Frame.{MessageFrame}
use chat_app.Kernel.{Kernel}
use chat_app.Queues.{StringQueue}
use chat_app.State.{ClientData, Worker, App, occupant, on_server, put_client, update_at}
use chat_app.State.Access.{reading}
use chat_app.Server.{
  send_msg, receive_msg, received_into, get_selected_client_fd, available, get_client_ref,
}
use chat_app.System.Closed.{IsServed, IsListened, os_call-Keeps, call-Keeps}
use chat_app.Manager.{
  worker_client_disconnect, unicast_repeated, unicast_one, push_to, push_if, worker_push,
  worker_slot,
}

module _ {Q : Type 0} ⦃queue : StringQueue Q⦄ {P : App Q → Type 0} ⦃served : IsServed P⦄ where
  pub update_at-Keeps :
      (i : ℕ) (f : ClientData Q → ClientData Q)
      → ((c : ClientData Q) → (f c).personal_id ≡ c.personal_id)
      → ((c : ClientData Q) → (f c).send_queue ≡ c.send_queue)
      → Keeps P (update_at i f)
  unfolding monad
  update_at-Keeps i f same waiting =
      reading P i (λ c. on_server (put_client i (f c)))
        λ s c at v. served.rewritten i c (f c) s at (same c) (inl (waiting c)) v

  pub available-Keeps : (o : Option ℕ) → Keeps P (available o)
  available-Keeps none = search keeps_rules
  available-Keeps (some i) = search keeps_rules

module _ {Q : Type 0} ⦃queue : StringQueue Q⦄ ⦃os : Kernel⦄ {P : App Q → Type 0}
    ⦃served : IsServed P⦄ where
  pub send_msg-Keeps : (text : Bytes) (id : ℤ) → Keeps P (send_msg text id)
  unfolding send_msg get_selected_client_fd get_client_ref
  send_msg-Keeps text id = search (keeps_rules, os_call-Keeps, available-Keeps) depth 9

  received_into-Keeps : (frame : MessageFrame) (o : Option Bytes) → Keeps P (received_into frame o)
  received_into-Keeps frame none = search keeps_rules
  received_into-Keeps frame (some bytes) = search keeps_rules

  pub receive_msg-Keeps : (frame : MessageFrame) (id : ℤ) → Keeps P (receive_msg frame id)
  unfolding receive_msg get_selected_client_fd get_client_ref
  receive_msg-Keeps frame id =
      search (keeps_rules, os_call-Keeps, available-Keeps, received_into-Keeps) depth 9

  pub worker_push-Keeps : (msg : ServerMessage) (evfd : ℤ) → Keeps P (worker_push msg evfd)
  unfolding worker_push
  worker_push-Keeps msg evfd =
      search (keeps_rules, os_call-Keeps, Keeps-modify, served.managed) depth 9

module _ {Q : Type 0} {P : App Q → Type 0} where
  pub worker_slot-Keeps : (i : ℤ) → Keeps P (worker_slot i)
  worker_slot-Keeps (pos i) = search (keeps_rules)
  worker_slot-Keeps (negsuc i) = search (keeps_rules, Keeps-undefined)

module _ {Q : Type 0} ⦃queue : StringQueue Q⦄ ⦃os : Kernel⦄ {P : App Q → Type 0}
    ⦃listened : IsListened P⦄ where
  pub worker_client_disconnect-Keeps : (i : ℤ) → Keeps P (worker_client_disconnect i)
  unfolding worker_client_disconnect
  worker_client_disconnect-Keeps i = Keeps-bind _ _ (worker_slot-Keeps i) λ j.
      Keeps-bind _ _ (Keeps-gets _) λ ws.
        Keeps-bind _ _ (counted j ws (occupant ws j))
          λ w. search (keeps_rules, call-Keeps, Keeps-modify, listened.managed) depth 9
    where
      counted :
          (j : ℕ) (ws : List (Option Worker)) (o : Option Worker)
          → Keeps P (elim o as (λ _. M (App Q) Worker) [
            | none ↦
                raise
                  (thread_managing_exception "Can't disconnect from a thread that isn't running\n")
            | some w ↦ pure w
          ])
      counted j ws none = search keeps_rules
      counted j ws (some w) = search keeps_rules

  push_to-Keeps : (i : ℕ) (text : Bytes) → Keeps P (push_to i text)
  unfolding monad
  push_to-Keeps i text =
      reading P i
        (λ c.
          let (pushed, q) = queue.try_push c.send_queue text in
          on_server (put_client i (record c { send_queue = q }))
          >> raise_if (not pushed)
              (queue_exception "Failed to push message to corresponding client\n"))
        λ s c at v.
          (sent (queue.try_push c.send_queue text).0).at _ (listened.pushed i c text s at v)
    where
      sent :
          (b : Bool)
          → Keeps P (
              raise_if (not b) (queue_exception "Failed to push message to corresponding client\n"))
      sent b = search keeps_rules

  push_if-Keeps : (o : Option ℕ) (text : Bytes) → Keeps P (push_if o text)
  push_if-Keeps none text = search keeps_rules
  push_if-Keeps (some i) text = push_to-Keeps i text

  unicast_one-Keeps :
      (excepted_id : ℤ) (text : Bytes) (id : ℤ) → Keeps P (unicast_one excepted_id text id)
  unfolding get_client_ref
  unicast_one-Keeps e text id = search (keeps_rules, push_if-Keeps)

  pub unicast_repeated-Keeps :
      (excepted_id : ℤ) (ids : List ℤ) (text : Bytes)
      → Keeps P (unicast_repeated excepted_id ids text)
  unfolding unicast_repeated
  unicast_repeated-Keeps e [] text = search keeps_rules
  unicast_repeated-Keeps e (id ∷ ids) text =
      Keeps-bind _ _ (unicast_one-Keeps e text id) λ _. unicast_repeated-Keeps e ids text
