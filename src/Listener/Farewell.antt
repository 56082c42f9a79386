-- ===== src/Listener/Farewell.antt =====
-- What the listener does when a worker reports that a client has left.
use chat_app.Common.{
  ℕ, ◌<◌, ◌≡◌, refl, ap, subst, fun_ext, ◌∙◌, inl, inr, true, false, List, [], ◌∷◌, ◌++◌, Option,
  none, some, arith, ltb, set, ◌==◌, Bool-cases, ℤ, pos, int_eq, int_eq_iff, length, M, monad, ◌>>◌,
  ◌>>=◌, ok, lift,
}
use chat_app.Common.Keeps.{bind_ok}
use chat_app.Text.{Bytes, codes}
use chat_app.Text.Decimal.{stoi}
use chat_app.Message.{ServerMessage, get_concatenated_msg}
use chat_app.Kernel.{Kernel}
use chat_app.Queues.{StringQueue}
use chat_app.State.{ClientData, Worker, App, occupant}
use chat_app.Slots.{find_client, reset_client, connected_ids}
use chat_app.Slots.Lookup.{IsUnique, reset_client_lem}
use chat_app.Server.{disconnect_client}
use chat_app.Server.Identifiers.{IsFresh, occupant-set}
use chat_app.Server.Disconnect.{after_disconnect, found-eq, disconnect_client-IsFresh}
use chat_app.Manager.{unicast_one, unicast_repeated, worker_client_disconnect, worker_slot, workers}
use chat_app.Manager.OneFewer.{after_leaving, leaving-eq}
use chat_app.Manager.Broadcast.{
  with_clients, all_with_text, HasRoom, unicast_repeated-connected_ids,
}
use chat_app.Listener.{client_disconnected, check_worker}

-- A line of the server for everybody, that somebody of this name has left; the rest is the report's.
abbrev pub left_msg : ServerMessage → ServerMessage
left_msg report = record {
  thread_number = report.thread_number;
  action = codes "UNICAST_REPEATED";
  fd = report.fd;
  name = codes "SERVER";
  id = report.id;
  color_id = report.color_id;
  init_done = report.init_done;
  msg_content = report.name ++ codes " Has just left!";
}

module _ {Q : Type 0} ⦃queue : StringQueue Q⦄ ⦃os : Kernel⦄ (id : ℤ) (text : Bytes) where
  -- The excepted identifier may stand in the list or not.
  unicast_repeated-reset_client :
      (xs : List (Option (ClientData Q))) (s : App Q)
      → unicast_repeated id (connected_ids xs) text s
        ≡ unicast_repeated id (connected_ids (reset_client id xs)) text s
  unfolding unicast_repeated connected_ids reset_client monad
  unicast_repeated-reset_client [] s = refl
  unicast_repeated-reset_client (none ∷ xs) s = unicast_repeated-reset_client xs s
  unicast_repeated-reset_client (some c ∷ xs) s = elim (Bool-cases (int_eq c.personal_id id)) [
    | inl same ↦
        let own : int_eq id c.personal_id ≡ true =
          ground (arith, int_eq_iff c.personal_id id, int_eq_iff id c.personal_id) in
        rw (same, own)
    | inr other ↦ rw other (
        ap (λ (k : M (App Q) (Unit {0})). (unicast_one id text c.personal_id >> k) s)
          (fun_ext (unicast_repeated-reset_client xs)))
  ]

module _ {Q : Type 0} ⦃queue : StringQueue Q⦄ ⦃os : Kernel⦄ where
  -- The checks before the farewell pass.
  checked :
      {A : Type 0} (t : ℕ) (w : Worker) (k : M (App Q) A) (s : App Q)
      → t < length s.manager.worker_threads
      → occupant s.manager.worker_threads t ≡ some w
      → 0 < w.nr_clients
      → (worker_slot (pos t) >>= λ i. workers >>= λ ws. check_worker (occupant ws i) >> k) s ≡ k s
  unfolding monad
  checked t w k s inside at some_client =
      let in_range : ltb t (length s.manager.worker_threads) ≡ true = ground arith in
      let filled : (w.nr_clients == 0) ≡ false = ground arith in
      ground (arith, in_range, at, filled)

  -- The table without the client, with the farewell in the queues of the others.
  abbrev pub bidden : ServerMessage → ℤ → ℕ → ClientData Q → App Q → App Q
  bidden msg id i c s =
      with_clients (after_disconnect i c s)
        (all_with_text id (get_concatenated_msg (left_msg msg)) (set s.server.clients i none))

  -- The table without a client has room where the whole table has.
  pub HasRoom-emptied :
      (id : ℤ) (text : Bytes) (i : ℕ) (xs : List (Option (ClientData Q)))
      → HasRoom id text xs
      → HasRoom id text (set xs i none)
  HasRoom-emptied id text i xs room j d there =
      ground (arith, occupant-set xs i j none {a = d} there, room j d)

  told :
      (msg : ServerMessage) (id : ℤ) (i : ℕ) (c : ClientData Q) (s : App Q)
      → find_client id s.server.clients ≡ some i
      → IsUnique (set s.server.clients i none)
      → HasRoom id (get_concatenated_msg (left_msg msg)) s.server.clients
      → unicast_repeated id
          (connected_ids s.server.clients)
          (get_concatenated_msg (left_msg msg))
          (after_disconnect i c s)
        ≡ (ok tt, bidden msg id i c s)
  told msg id i c s e u room =
      let text = get_concatenated_msg (left_msg msg) in
      unicast_repeated-reset_client id text s.server.clients (after_disconnect i c s)
      ∙ ap (λ xs. unicast_repeated id (connected_ids xs) text (after_disconnect i c s))
          (reset_client_lem id s.server.clients i e)
      ∙ (unicast_repeated-connected_ids id text (after_disconnect i c s) u
          (HasRoom-emptied id text i s.server.clients room)).0

  -- A worker's report that its client has left closes the client's socket, empties its slot and
  -- lowers the counter of connections, puts one farewell at the end of the queue of every other
  -- client, and takes one client off the count of the worker: the worker stays with the rest of
  -- its clients, or, if that was its last, it is joined and its slot emptied; the limit becomes
  -- the largest count that is left; and nothing else of the state changes. The message names a
  -- client that is connected and a worker that runs with at least one client; the identifiers are
  -- distinct and handed out by the counter, and no queue is full.
  pub client_disconnected-farewell :
      (msg : ServerMessage) (id : ℤ) (t i : ℕ) (c : ClientData Q) (w : Worker) (s : App Q)
      → stoi msg.id ≡ ok id
      → stoi msg.thread_number ≡ ok (pos t)
      → t < length s.manager.worker_threads
      → occupant s.manager.worker_threads t ≡ some w
      → 0 < w.nr_clients
      → find_client id s.server.clients ≡ some i
      → occupant s.server.clients i ≡ some c
      → IsFresh s
      → HasRoom id (get_concatenated_msg (left_msg msg)) s.server.clients
      → client_disconnected msg (connected_ids s.server.clients) s
        ≡ (ok tt, after_leaving t w (bidden msg id i c s))
  unfolding client_disconnected monad
  client_disconnected-farewell msg id t i c w s named thread inside at some_client e there v room =
      let u : IsUnique (set s.server.clients i none) =
        subst (λ r. IsUnique r.1.server.clients) (found-eq id s i c e there)
          (disconnect_client-IsFresh id s v).0.unique in
      let text = get_concatenated_msg (left_msg msg) in
      let tell : M (App Q) (Unit {0}) = unicast_repeated id (connected_ids s.server.clients) text in
      let rest : ℤ → M (App Q) (Unit {0}) = λ n. worker_slot n >>= λ j.
      workers >>= λ ws. check_worker (occupant ws j) >> (tell >> worker_client_disconnect n) in
      let s1 = after_disconnect i c s in
      let after : (lift (stoi msg.thread_number) >>= rest) s1
          ≡ (ok tt, after_leaving t w (bidden msg id i c s)) =
        rw thread (
          checked t w (tell >> worker_client_disconnect (pos t)) s1 inside at some_client
          ∙ bind_ok tell (worker_client_disconnect (pos t)) s1 (bidden msg id i c s)
              (told msg id i c s e u room)
          ∙ leaving-eq (bidden msg id i c s) t w inside at some_client) in
      rw named (
        bind_ok (disconnect_client id) (lift (stoi msg.thread_number) >>= rest) s s1
          (found-eq id s i c e there)
        ∙ after)
