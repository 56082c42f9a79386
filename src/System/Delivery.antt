-- ===== src/System/Delivery.antt =====
-- A chat line from the socket of one client to the socket of another: a worker, the listener, and
-- again a worker.
use chat_app.Common.{
  ℕ, ◌≤◌, ◌<◌, ◌≡◌, ◌≢◌, refl, sym, ap, ◌∙◌, subst, inl, inr, true, false, List, [], ◌∷◌, ◌++◌,
  Option, some, arith, Bool-cases, ℤ, int_eq, int_eq_iff, length, ok, M, set, monad, ◌>>=◌, ◌>>◌,
  length-append,
}
use chat_app.Text.Decimal.{stoi}
use chat_app.Message.{ServerMessage, get_concatenated_msg, reset_msg}
use chat_app.Resources.{init_done_state, queue_size}
use chat_app.Frame.{MessageFrame, clear_msg}
use chat_app.Kernel.{Kernel, Trace, counter, received, signalled, drained}
use chat_app.Queues.{StringQueue}
use chat_app.State.{ClientData, App, occupant}
use chat_app.Slots.Lookup.{IsUnique, occupant-set_ne}
use chat_app.Server.Sending.{IsSeated, Sends}
use chat_app.Manager.Pushing.{IsAwake, pushed, waiting, waiting-pushed}
use chat_app.Manager.Hearing.{occupant-all_with_text, with_text-IsSeated}
use chat_app.Manager.Broadcast.{with_text, all_with_text, with_clients}
use chat_app.Listener.{listener_process_worker_to_listener_q}
use chat_app.Listener.Repeating.{after_pop, repeated_text, listener_process-repeats}
use chat_app.Handshake.{process_client_state}
use chat_app.Handshake.Draining.{sent_all, with_queue, process_client_state-drains}
use chat_app.WorkerLoop.{read_client}
use chat_app.Frame.Reading.{IsSendable}
use chat_app.WorkerLoop.Forwarding.{IsChat, read_client-forwards}

same_text : (m : ServerMessage) → IsChat m → repeated_text m ≡ get_concatenated_msg m
same_text m chat = ap (λ a. get_concatenated_msg (record m { action = a })) (sym chat)

module _ {Q : Type 0} ⦃queue : StringQueue Q⦄ ⦃os : Kernel⦄ where
  -- What the chat needs of the server: distinct identifiers, room in the queues, an idle listener,
  -- and event descriptors that work.
  pub record IsReady (evfd : ℤ) (s : App Q) : Type 0 where
    pub unique : IsUnique s.server.clients
    pub room :
        (i : ℕ) (c : ClientData Q)
        → occupant s.server.clients i ≡ some c
        → length (queue.contents c.send_queue) < queue_size
    pub idle : waiting s ≡ []
    pub awake : IsAwake evfd
    pub readable : (t : Trace) → os.read_result t evfd ≡ counter

  -- Client `c` in slot `i` is connected, and its handshake is over.
  pub record IsChatting (i : ℕ) (c : ClientData Q) (s : App Q) : Type 0 where
    pub seated : IsSeated i c s
    pub open_chat : c.init_state ≡ init_done_state

  -- The worker of `c` reads, the listener wakes up, and the worker of slot `j` writes.
  abbrev pub chat_path :
      ℕ → ServerMessage → MessageFrame → ℕ → ℕ → ℤ → ClientData Q → M (App Q) ServerMessage
  chat_path fuel m0 f i j evfd c = do
    r ← read_client (c.fd, c.personal_id) (some i) (record { frame = clear_msg f; msg = m0 }) evfd
    listener_process_worker_to_listener_q evfd
    process_client_state fuel false r.1.msg j evfd

  -- The server when the line waits for the listener, and when it waits for the receivers.
  abbrev forwarded : ServerMessage → ℤ → ClientData Q → App Q → App Q
  forwarded m evfd c s =
      pushed evfd (get_concatenated_msg m) (record s { trace = received c.fd ∷ s.trace })

  abbrev dispatched : ServerMessage → ℤ → ClientData Q → App Q → Q → App Q
  dispatched m evfd c s q =
      with_clients (after_pop (forwarded m evfd c s) evfd q)
        (all_with_text c.personal_id (repeated_text m) s.server.clients)

  arrives :
      (m : ServerMessage) (evfd : ℤ) (c : ClientData Q) (s : App Q)
      → IsSendable m
      → IsChat m
      → stoi m.id ≡ ok c.personal_id
      → IsReady evfd s
      → (q : Q) × (queue.contents q ≡ [])
        × (listener_process_worker_to_listener_q evfd (forwarded m evfd c s)
            ≡ (ok tt, dispatched m evfd c s q))
  arrives m evfd c s good chat named v =
      let holds : waiting (forwarded m evfd c s) ≡ get_concatenated_msg m ∷ [] =
        waiting-pushed evfd (get_concatenated_msg m) (record s { trace = received c.fd ∷ s.trace })
          (omega (arith, ap length v.idle))
        ∙ ap (λ xs. xs ++ get_concatenated_msg m ∷ []) v.idle in
      listener_process-repeats m c.personal_id evfd [] (forwarded m evfd c s) good.clean (inl chat)
        named (v.readable _) holds v.unique v.room

  others_differ :
      (i j : ℕ) (c d : ClientData Q) (s : App Q)
      → IsUnique s.server.clients
      → IsSeated i c s
      → IsSeated j d s
      → i ≢ j
      → int_eq c.personal_id d.personal_id ≡ false
  others_differ i j c d s u v w ne = elim (Bool-cases (int_eq c.personal_id d.personal_id)) [
    | inl e ↦ absurd (ne (u i j c d v.here w.here ((int_eq_iff c.personal_id d.personal_id).0 e)))
    | inr e ↦ e
  ]

  -- The receiver with the line behind what waited for it.
  abbrev hearing : ServerMessage → ClientData Q → ClientData Q
  hearing m d = record d { send_queue = (queue.try_push d.send_queue (repeated_text m)).1 }

  heard :
      (m : ServerMessage) (evfd : ℤ) (i j : ℕ) (c d : ClientData Q) (s : App Q) (q : Q)
      → IsUnique s.server.clients
      → IsSeated i c s
      → IsSeated j d s
      → i ≢ j
      → IsSeated j (hearing m d) (dispatched m evfd c s q)
  heard m evfd i j c d s q u v w ne =
      let other = others_differ i j c d s u v w ne in
      let is : with_text c.personal_id (repeated_text m) d ≡ hearing m d = rw other refl in
      subst (λ b. IsSeated j b (dispatched m evfd c s q)) is
        (with_text-IsSeated c.personal_id (repeated_text m) j d s (dispatched m evfd c s q) w refl)

  -- The sender is left as it was, wherever the receiver sits.
  unheard :
      (m : ServerMessage) (i j : ℕ) (c : ClientData Q) (xs : List (Option (ClientData Q)))
      (o : Option (ClientData Q))
      → occupant xs i ≡ some c
      → i ≢ j
      → occupant (set (all_with_text c.personal_id (repeated_text m) xs) j o) i ≡ some c
  unheard m i j c xs o at ne =
      let same : int_eq c.personal_id c.personal_id ≡ true =
        (int_eq_iff c.personal_id c.personal_id).1 refl in
      let is : with_text c.personal_id (repeated_text m) c ≡ c = rw same refl in
      occupant-set_ne _ i j o ne
      ∙ (occupant-all_with_text c.personal_id (repeated_text m) xs i c at ∙ ap some is)

  delivered :
      (m m0 : ServerMessage) (f : MessageFrame) (i j : ℕ) (evfd : ℤ) (c d : ClientData Q)
      (s : App Q) (fuel : ℕ)
      → IsSendable m
      → IsChat m
      → stoi m.id ≡ ok c.personal_id
      → IsReady evfd s
      → IsChatting i c s
      → IsChatting j d s
      → i ≢ j
      → os.recv_result s.trace c.fd f.msg_len ≡ some (get_concatenated_msg m)
      → Sends d.fd
      → length (queue.contents d.send_queue) < fuel
      → (q q' : Q) × (queue.contents q ≡ [])
        × (chat_path fuel m0 f i j evfd c s ≡ (
          ok (reset_msg m),
          with_queue j (dispatched m evfd c s q) (hearing m d) q' (
              sent_all d.fd
                (queue.contents d.send_queue ++ repeated_text m ∷ [])
                (dispatched m evfd c s q).trace),
        ))
  unfolding monad
  delivered m m0 f i j evfd c d s fuel good chat named v vc vd ne comes sends enough =
      let (q, none_left, done) = arrives m evfd c s good chat named v in
      let there = heard m evfd i j c d s q v.unique vc.seated vd.seated ne in
      let holds = (queue.push_room d.send_queue (repeated_text m) (v.room j d vd.seated.here)).1 in
      let few : length (queue.contents (hearing m d).send_queue) ≤ fuel = omega (
        arith,
        ap length holds,
        length-append {0} (queue.contents d.send_queue) (repeated_text m ∷ []),
      ) in
      let (q', empty, written) =
        process_client_state-drains j fuel (reset_msg m) evfd (hearing m d)
          (dispatched m evfd c s q) there sends vd.open_chat few in
      (
        q,
        q',
        none_left,
        ground (
          arith,
          read_client-forwards m m0 f i evfd c s good chat vc.seated vc.open_chat comes v.awake
              (omega (arith, ap length v.idle)),
          done,
          written,
          holds,
        ),
      )

  -- A chat line goes through the server unchanged: the worker of the sender reads it, the listener
  -- takes it from its queue, and the worker of any other client sends it, as the last of the texts
  -- that wait for that client. The sender gets nothing back, and nothing is left for the listener.
  -- The line is one that the program can carry, and names its sender; both clients are in the chat,
  -- the server is idle with distinct identifiers and room in the queues, sending succeeds, and the
  -- rounds given to the last step are more than the texts that wait.
  pub chat_path-delivers :
      (m m0 : ServerMessage) (f : MessageFrame) (i j : ℕ) (evfd : ℤ) (c d : ClientData Q)
      (s : App Q) (fuel : ℕ)
      → IsSendable m
      → IsChat m
      → stoi m.id ≡ ok c.personal_id
      → IsReady evfd s
      → IsChatting i c s
      → IsChatting j d s
      → i ≢ j
      → os.recv_result s.trace c.fd f.msg_len ≡ some (get_concatenated_msg m)
      → Sends d.fd
      → length (queue.contents d.send_queue) < fuel
      → let (r, s') = chat_path fuel m0 f i j evfd c s in
        (r ≡ ok (reset_msg m))
        × (s'.trace
            ≡ sent_all d.fd
                (queue.contents d.send_queue ++ get_concatenated_msg m ∷ [])
                (drained evfd ∷ signalled evfd ∷ received c.fd ∷ s.trace))
        × (occupant s'.server.clients i ≡ some c)
        × (waiting s' ≡ [])
  chat_path-delivers m m0 f i j evfd c d s fuel good chat named v vc vd ne comes sends enough =
      let (q, q', none_left, e) =
        delivered m m0 f i j evfd c d s fuel good chat named v vc vd ne comes sends enough in
      rw e (
        refl,
        ap
            (λ out.
              sent_all d.fd (queue.contents d.send_queue ++ out ∷ [])
                (drained evfd ∷ signalled evfd ∷ received c.fd ∷ s.trace))
            (same_text m chat),
        unheard m i j c s.server.clients _ vc.seated.here ne,
        none_left,
      )
