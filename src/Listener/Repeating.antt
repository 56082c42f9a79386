-- ===== src/Listener/Repeating.antt =====
-- What the listener does with a message that it is to repeat to the clients.
use chat_app.Common.{
  ◌≡◌, ◌⊎◌, inl, inr, refl, sym, ap, ◌∙◌, true, false, List, [], ◌∷◌, some, arith, ℤ, ok, monad, M,
  skip,
}
use chat_app.Text.{Bytes}
use chat_app.Text.Decimal.{stoi}
use chat_app.Message.{ServerMessage, empty_msg, get_concatenated_msg, construct_from_string}
use chat_app.Message.RoundTrip.{tokens, construct-concatenated}
use chat_app.Resources.{Actions, get_action}
use chat_app.Kernel.{Kernel, counter, drained}
use chat_app.Queues.{StringQueue}
use chat_app.State.{App, os_call}
use chat_app.Slots.{connected_ids}
use chat_app.Slots.Lookup.{IsUnique}
use chat_app.Server.{get_connected_ids}
use chat_app.Manager.{unicast_repeated}
use chat_app.Manager.Pushing.{waiting}
use chat_app.Manager.Broadcast.{
  with_clients, all_with_text, HasRoom, unicast_repeated-connected_ids,
}
use chat_app.Listener.{is_action, dispatch, deliver, listener_process_worker_to_listener_q}

pub construct-clean :
    (m : ServerMessage)
    → tokens m ≡ 0
    → construct_from_string empty_msg (get_concatenated_msg m) ≡ ok m
construct-clean m clean = construct-concatenated empty_msg m ∙ rw clean

-- The text that the other clients get.
abbrev pub repeated_text : ServerMessage → Bytes
repeated_text m = get_concatenated_msg (record m { action = get_action Actions.unicast_repeated })

module _ {Q : Type 0} ⦃queue : StringQueue Q⦄ ⦃os : Kernel⦄ where
  -- The server with text taken from the queue, of which `q` is left.
  abbrev pub after_pop : App Q → ℤ → Q → App Q
  after_pop s evfd q = record s {
    manager = record s.manager { q_worker_to_listener = q };
    trace = drained evfd ∷ s.trace;
  }

  -- A message for all clients; the text that goes on may be another than the one received.
  repeated :
      (m : ServerMessage) (id : ℤ) (text out : Bytes) (s : App Q)
      → construct_from_string empty_msg text ≡ ok m
      → ((ids : List ℤ) → dispatch m ids text s ≡ unicast_repeated id ids out s)
      → deliver text s ≡ unicast_repeated id (connected_ids s.server.clients) out s
  unfolding unicast_repeated get_connected_ids monad
  repeated m id text out s read says = rw read (some_or_none (connected_ids s.server.clients))
    where
      some_or_none :
          (ids : List ℤ)
          → elim ids as (λ _. M (App Q) (Unit {0})) [
            | [] ↦ skip
            | id' ∷ ids' ↦ dispatch m (id' ∷ ids') text
          ]
              s
            ≡ unicast_repeated id ids out s
      some_or_none [] = refl
      some_or_none (id' ∷ ids') = says (id' ∷ ids')

  pub popped :
      (text : Bytes) (q : Q) (evfd : ℤ) (s : App Q)
      → os.read_result s.trace evfd ≡ counter
      → queue.try_pop s.manager.q_worker_to_listener ≡ some (text, q)
      → listener_process_worker_to_listener_q evfd s ≡ deliver text (after_pop s evfd q)
  unfolding listener_process_worker_to_listener_q monad os_call
  popped text q evfd s readable e = ground (arith, readable, e)

  dispatch-chat :
      (m : ServerMessage) (id : ℤ) (ids : List ℤ) (s : App Q)
      → m.action ≡ get_action Actions.unicast_repeated
      → stoi m.id ≡ ok id
      → dispatch m ids (get_concatenated_msg m) s ≡ unicast_repeated id ids (repeated_text m) s
  unfolding monad
  dispatch-chat m id ids s chat named =
      let same : repeated_text m ≡ get_concatenated_msg m =
        ap (λ a. get_concatenated_msg (record m { action = a })) (sym chat) in
      let stays : is_action m Actions.cl_disconnected ≡ false = rw chat refl in
      let is_chat : is_action m Actions.unicast_repeated ≡ true = rw chat refl in
      ground (arith, same, stays, is_chat, named)

  dispatch-init_done :
      (m : ServerMessage) (id : ℤ) (ids : List ℤ) (text : Bytes) (s : App Q)
      → m.action ≡ get_action Actions.init_done
      → stoi m.id ≡ ok id
      → dispatch m ids text s ≡ unicast_repeated id ids (repeated_text m) s
  unfolding monad
  dispatch-init_done m id ids text s new named =
      let stays : is_action m Actions.cl_disconnected ≡ false = rw new refl in
      let no_chat : is_action m Actions.unicast_repeated ≡ false = rw new refl in
      let goes_on : is_action m Actions.sv_disconnected ≡ false = rw new refl in
      let is_new : is_action m Actions.init_done ≡ true = rw new refl in
      ground (arith, stays, no_chat, goes_on, is_new, named)

  -- The listener wakes up to a chat line, or to the news that a client is initialised. It takes
  -- that text alone from its queue, and puts the message, as a chat line, to the end of the queue
  -- of every client but the one that the message names. The message has no split token in a field
  -- and names its client by a number; no two clients share an identifier, and no queue of a client
  -- is full.
  pub listener_process-repeats :
      (m : ServerMessage) (id : ℤ) (evfd : ℤ) (rest : List Bytes) (s : App Q)
      → tokens m ≡ 0
      → (m.action ≡ get_action Actions.unicast_repeated) ⊎ (m.action ≡ get_action Actions.init_done)
      → stoi m.id ≡ ok id
      → os.read_result s.trace evfd ≡ counter
      → waiting s ≡ get_concatenated_msg m ∷ rest
      → IsUnique s.server.clients
      → HasRoom id (repeated_text m) s.server.clients
      → (q : Q) × (queue.contents q ≡ rest)
        × (listener_process_worker_to_listener_q evfd s ≡ (
          ok tt,
          with_clients (after_pop s evfd q) (all_with_text id (repeated_text m) s.server.clients),
        ))
  listener_process-repeats m id evfd rest s clean kind named readable holds u room =
      let text = get_concatenated_msg m in
      let (q, taken, left) = queue.pop_oldest s.manager.q_worker_to_listener text rest holds in
      let s1 = after_pop s evfd q in
      let says : (ids : List ℤ)
          → dispatch m ids text s1 ≡ unicast_repeated id ids (repeated_text m) s1 =
        λ ids. elim kind [
          | inl chat ↦ dispatch-chat m id ids s1 chat named
          | inr new ↦ dispatch-init_done m id ids text s1 new named
        ] in
      (
        q,
        left,
        popped text q evfd s readable taken
            ∙ (repeated m id text (repeated_text m) s1 (construct-clean m clean) says
                ∙ (unicast_repeated-connected_ids id (repeated_text m) s1 u room).0),
      )
