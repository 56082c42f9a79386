-- ===== src/Room/Messages.antt =====
-- What a message from a worker does to the room.
use chat_app.Common.{
  ℕ, ◌<◌, ◌≡◌, ◌⊎◌, refl, sym, ap, ◌∙◌, fun_ext, inl, inr, true, false, List, [], ◌∷◌, Option, none,
  some, if◌then◌else◌, ℤ, pos, length, ok, M, monad, skip,
}
use chat_app.Text.{Bytes}
use chat_app.Text.Decimal.{stoi}
use chat_app.Message.{ServerMessage, empty_msg, get_concatenated_msg, construct_from_string}
use chat_app.Message.RoundTrip.{tokens}
use chat_app.Resources.{Actions, get_action}
use chat_app.Kernel.{Kernel, counter}
use chat_app.Queues.{StringQueue}
use chat_app.State.{ClientData, Worker, App, occupant}
use chat_app.Slots.{find_client, connected_ids, next_slot}
use chat_app.Server.{get_connected_ids}
use chat_app.Server.Identifiers.{IsFresh, IsFresh-same}
use chat_app.Manager.Pushing.{waiting}
use chat_app.Manager.Broadcast.{HasRoom}
use chat_app.Listener.{
  is_action, client_disconnected, dispatch, deliver, listener_process_worker_to_listener_q,
}
use chat_app.Listener.Farewell.{left_msg, client_disconnected-farewell, HasRoom-emptied}
use chat_app.Listener.Repeating.{
  after_pop, popped, construct-clean, repeated_text, listener_process-repeats,
}
use chat_app.Room.{Room, say, leave, mailbox, room_of}
use chat_app.Room.Mailboxes.{mailbox-all_with_text, mailbox-reset_client}
use chat_app.Slots.Lookup.{reset_client_lem}

-- A message for the whole room.
abbrev pub IsForAll : ServerMessage → Type 0
IsForAll m =
    (m.action ≡ get_action Actions.unicast_repeated) ⊎ (m.action ≡ get_action Actions.init_done)

-- What a message of member `id` means: it leaves, and the others hear of it; or they hear what it
-- says.
abbrev pub meaning : ServerMessage → ℤ → Room → Room
meaning m id r =
    if is_action m Actions.cl_disconnected
    then say id (get_concatenated_msg (left_msg m)) (leave id r)
    else say id (repeated_text m) r

module _ {Q : Type 0} where
  connected_ids_found :
      (id : ℤ) (xs : List (Option (ClientData Q)))
      → connected_ids xs ≡ []
      → find_client id xs ≡ none
  unfolding connected_ids find_client
  connected_ids_found id [] e = refl
  connected_ids_found id (none ∷ xs) e = ap next_slot (connected_ids_found id xs e)
  connected_ids_found id (some c ∷ xs) e = cc

module _ {Q : Type 0} ⦃queue : StringQueue Q⦄ ⦃os : Kernel⦄ where
  -- The message says that client `id` has left worker `t`: both are there, the worker with at least
  -- one client.
  pub record HasLeft (m : ServerMessage) (id : ℤ) (s : App Q) : Type 0 where
    pub says : m.action ≡ get_action Actions.cl_disconnected
    pub t : ℕ
    pub thread : stoi m.thread_number ≡ ok (pos t)
    pub inside : t < length s.manager.worker_threads
    pub worker : Worker
    pub running : occupant s.manager.worker_threads t ≡ some worker
    pub busy : 0 < worker.nr_clients
    pub slot : ℕ
    pub client : ClientData Q
    pub found : find_client id s.server.clients ≡ some slot
    pub here : occupant s.server.clients slot ≡ some client

  delivers :
      (m : ServerMessage) (id : ℤ) (text : Bytes) (s : App Q) {i : ℕ}
      → construct_from_string empty_msg text ≡ ok m
      → find_client id s.server.clients ≡ some i
      → deliver text s ≡ dispatch m (connected_ids s.server.clients) text s
  unfolding get_connected_ids monad
  delivers m id text s {i} read found = rw read (
      some_or_none (connected_ids s.server.clients)
        (λ e. cc (connected_ids_found id s.server.clients e, found)))
    where
      some_or_none :
          (ids : List ℤ)
          → (ids ≡ [] → ⊥)
          → elim ids as (λ _. M (App Q) (Unit {0})) [
            | [] ↦ skip
            | id' ∷ ids' ↦ dispatch m (id' ∷ ids') text
          ]
              s
            ≡ dispatch m ids text s
      some_or_none [] h = absurd (h refl)
      some_or_none (id' ∷ ids') h = refl

  -- The room hears of a member that has left.
  left-meaning :
      (m : ServerMessage) (id : ℤ) (s : App Q)
      → IsFresh s
      → HasRoom id (get_concatenated_msg (left_msg m)) s.server.clients
      → stoi m.id ≡ ok id
      → HasLeft m id s
      → room_of (client_disconnected m (connected_ids s.server.clients) s).1
        ≡ say id (get_concatenated_msg (left_msg m)) (leave id (room_of s))
  left-meaning m id s v room named h =
      let text = get_concatenated_msg (left_msg m) in
      let done =
        client_disconnected-farewell m id h.t h.slot h.client h.worker s named h.thread h.inside
          h.running h.busy h.found h.here v room in
      fun_ext λ k.
        ap (λ r. mailbox r.1.server.clients k) done
        ∙ (mailbox-all_with_text id text _ k (HasRoom-emptied id text h.slot s.server.clients room)
            ∙ ap (λ r. say id text r k)
                (fun_ext λ j.
                  ap (λ xs. mailbox xs j)
                    (sym (reset_client_lem id s.server.clients h.slot h.found))
                  ∙ mailbox-reset_client id s.server.clients j v.unique))

  -- The listener that wakes up to a message of member `id` does to the room what the message means,
  -- whether it is a chat line, the news that a client is initialised, or the report that it has
  -- left its worker. The message heads the queue and has no split token in a field, the identifiers
  -- are distinct and handed out by the counter, and no queue of a client is full.
  pub listener_process-meaning :
      (m : ServerMessage) (id : ℤ) (evfd : ℤ) (rest : List Bytes) (s : App Q)
      → IsForAll m ⊎ HasLeft m id s
      → tokens m ≡ 0
      → stoi m.id ≡ ok id
      → os.read_result s.trace evfd ≡ counter
      → waiting s ≡ get_concatenated_msg m ∷ rest
      → IsFresh s
      → HasRoom id (repeated_text m) s.server.clients
      → room_of (listener_process_worker_to_listener_q evfd s).1 ≡ meaning m id (room_of s)
  listener_process-meaning m id evfd rest s (inl kind) clean named readable holds v room =
      let (q, left, e) =
        listener_process-repeats m id evfd rest s clean kind named readable holds v.unique room in
      let stays : is_action m Actions.cl_disconnected ≡ false = elim kind [
        | inl chat ↦ rw chat refl
        | inr new ↦ rw new refl
      ] in
      rw (e, stays)
        (fun_ext λ k. mailbox-all_with_text id (repeated_text m) s.server.clients k room)
  listener_process-meaning m id evfd rest s (inr h) clean named readable holds v room =
      let text = get_concatenated_msg m in
      let (q, taken, left) = queue.pop_oldest s.manager.q_worker_to_listener text rest holds in
      let s1 = after_pop s evfd q in
      let says : is_action m Actions.cl_disconnected ≡ true = rw h.says refl in
      let goes : dispatch m (connected_ids s.server.clients) text s1
          ≡ client_disconnected m (connected_ids s.server.clients) s1 =
        rw says refl in
      let h1 : HasLeft m id s1 = record {
        says = h.says;
        t = h.t;
        thread = h.thread;
        inside = h.inside;
        worker = h.worker;
        running = h.running;
        busy = h.busy;
        slot = h.slot;
        client = h.client;
        found = h.found;
        here = h.here;
      } in
      rw says (
        ap (λ r. room_of r.1)
          (popped text q evfd s readable taken
            ∙ (delivers m id text s1 (construct-clean m clean) h.found ∙ goes))
        ∙ left-meaning m id s1 (IsFresh-same s s1 refl refl v) room named h1)
