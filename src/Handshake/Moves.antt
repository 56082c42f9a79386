-- ===== src/Handshake/Moves.antt =====
-- Every call of `process_client_state` makes at most one move of the state machine.
use chat_app.Common.{
  ℕ, ◌≡◌, ◌⊎◌, refl, sym, ap, inl, inr, Bool, true, false, List, Option, none, some, arith,
  Bool-cases, ℤ, int_eq, int_eq_iff, set, M, monad, pure, deref, ◌>>◌, ◌>>=◌, when, subst, Outcome,
  ok, throw, fault,
}
use chat_app.Common.Keeps.{Keeps, keeps_rules}
use chat_app.Message.{ServerMessage, reset_msg}
use chat_app.Resources.{
  Actions, disconnect_state, initial_state, requested_init, sent_init_confirmation, init_done_state,
}
use chat_app.Kernel.{Kernel}
use chat_app.Queues.{StringQueue}
use chat_app.State.{
  ClientData, App, occupant, client_at, update_at, inc_state, set_state, get_state,
}
use chat_app.State.Access.{reading}
use chat_app.Slots.Lookup.{occupant-set_at}
use chat_app.Listener.{is_action}
use chat_app.Handshake.{process_client_state, drain, forward, on_input, on_output, in_initial_state}
use chat_app.Handshake.States.{
  Step, request, confirm, finish, leave, Moved, Has, states_of, occupant-states_of, send_msg-Keeps,
  worker_push-Keeps, drain-Keeps, update_at-Keeps, moving, unmoved,
}

module _ {Q : Type 0} ⦃queue : StringQueue Q⦄ ⦃os : Kernel⦄ (msg : ServerMessage) (i : ℕ) where
  -- A move, and then what changes no state.
  Moved-then :
      (input : Bool) {A B : Type 0} (s : App Q) (k : M (App Q) B) (r : Outcome A × App Q)
      → ((l : List (Option ℤ)) → Keeps (Has l) k)
      → Moved input msg i s r.1
      → Moved input msg i s (◌>>◌ (λ _. r) k r.1).1
  unfolding monad
  Moved-then input s k (ok a, s') keeps m =
      subst
        (λ (after : List (Option ℤ)).
          (after ≡ states_of s.server.clients)
          ⊎ ((state : ℤ) × (state' : ℤ) × (occupant (states_of s.server.clients) i ≡ some state)
              × Step input msg state state'
              × (after ≡ set (states_of s.server.clients) i (some state'))))
        (sym ((keeps (states_of s'.server.clients)).at s' refl)) m
  Moved-then input s k (throw e, s') keeps m = m
  Moved-then input s k (fault, s') keeps m = m

  output-Moved :
      (fuel : ℕ) (s : App Q) (c : ClientData Q)
      → occupant s.server.clients i ≡ some c
      → Moved false msg i s (on_output fuel i c.init_state msg s).1
  unfolding inc_state pure
  output-Moved fuel s c at = elim (Bool-cases (int_eq c.init_state requested_init)) [
    | inl e ↦
        let before = (int_eq_iff c.init_state requested_init).0 e in
        rw e (
          moving msg i false inc_state _ s c requested_init sent_init_confirmation at before
            (rw before) (confirm refl) (search (keeps_rules, send_msg-Keeps) depth 8))
    | inr e ↦ elim (Bool-cases (int_eq c.init_state init_done_state)) [
      | inl e' ↦
          rw (e, e')
            (unmoved msg i false (drain fuel i >> pure msg) s
              λ l. search (keeps_rules, drain-Keeps))
      | inr e' ↦ rw (e, e') (inl refl)
    ]
  ]

  pure-Moved : (input : Bool) {A : Type 0} (a : A) (s : App Q) → Moved input msg i s (pure a s).1
  pure-Moved input a s = unmoved msg i input (pure a) s λ l. search keeps_rules

  abbrev accept_request : M (App Q) (Unit {0})
  accept_request = update_at i inc_state >> update_at i λ c. record c { name = msg.name }

  requested-Moved :
      (s : App Q) (c : ClientData Q)
      → occupant s.server.clients i ≡ some c
      → c.init_state ≡ initial_state
      → (b : Bool) → is_action msg Actions.init_req ≡ b
      → Moved true msg i s (when b accept_request s).1
  unfolding inc_state when
  requested-Moved s c at before true e =
      moving msg i true inc_state (update_at i λ c'. record c' { name = msg.name }) s c
        initial_state requested_init at before (rw before) (request refl e)
        (update_at-Keeps _ i _ λ _. refl)
  requested-Moved s c at before false e = inl refl

  request-Moved :
      (s : App Q) (c : ClientData Q)
      → occupant s.server.clients i ≡ some c
      → c.init_state ≡ initial_state
      → Moved true msg i s (in_initial_state i msg s).1
  unfolding monad
  request-Moved s c at before =
      Moved-then true s (pure (reset_msg msg))
        (when (is_action msg Actions.init_req) accept_request s) (λ l. search keeps_rules)
        (requested-Moved s c at before (is_action msg Actions.init_req) refl)

  input-Moved :
      (evfd : ℤ) (s : App Q) (c : ClientData Q)
      → occupant s.server.clients i ≡ some c
      → Moved true msg i s (on_input i c.init_state msg evfd s).1
  unfolding inc_state
  input-Moved evfd s c at = elim (Bool-cases (int_eq c.init_state initial_state)) [
    | inl e ↦ rw e (request-Moved s c at ((int_eq_iff c.init_state initial_state).0 e))
    | inr e ↦ elim (Bool-cases (int_eq c.init_state sent_init_confirmation)) [
      | inl e' ↦
          let before = (int_eq_iff c.init_state sent_init_confirmation).0 e' in
          elim (Bool-cases (is_action msg Actions.init_done)) [
            | inl d ↦
                rw (e, e', d)
                  (moving msg i true inc_state _ s c sent_init_confirmation init_done_state at
                    before (rw before) (finish refl d)
                    (search (keeps_rules, send_msg-Keeps, worker_push-Keeps) depth 9))
            | inr d ↦ rw (e, e', d) (pure-Moved true msg s)
          ]
      | inr e' ↦ elim (Bool-cases (int_eq c.init_state init_done_state)) [
        | inl e'' ↦ elim (Bool-cases (is_action msg Actions.unicast_repeated)) [
          | inl d ↦
              rw (e, e', e'', d)
                (unmoved msg i true (forward msg evfd) s
                  λ l. search (keeps_rules, worker_push-Keeps))
          | inr d ↦ rw (e, e', e'', d) (pure-Moved true msg s)
        ]
        | inr e'' ↦ rw (e, e', e'') (pure-Moved true msg s)
      ]
    ]
  ]

  -- Where the slot is empty the call is undefined, and here stops with no change.
  reading-Moved :
      (input : Bool) (s : App Q) (k : ClientData Q → M (App Q) ServerMessage)
      → ((c : ClientData Q) → occupant s.server.clients i ≡ some c → Moved input msg i s (k c s).1)
      → Moved input msg i s ((client_at i >>= k) s).1
  unfolding monad
  reading-Moved input s k h = from (occupant s.server.clients i) refl
    where
      from :
          (o : Option (ClientData Q))
          → occupant s.server.clients i ≡ o
          → Moved input msg i s ((deref o >>= k) s).1
      from none e = inl refl
      from (some c) e = h c e

  absent :
      {A : Type 0} (f : ClientData Q → ClientData Q) (k : M (App Q) A) (s : App Q)
      → occupant s.server.clients i ≡ none
      → ((update_at i f >> k) s).1 ≡ s
  unfolding monad
  absent f k s e = ground (arith, e)

  left-Moved :
      (evfd : ℤ) (s : App Q)
      → is_action msg Actions.cl_disconnected ≡ true
      → Moved true msg i s
          ((update_at i (λ c. set_state c disconnect_state)
              >> (client_at i >>= λ cl. on_input i (get_state cl) msg evfd))
            s).1
  unfolding set_state get_state
  left-Moved evfd s d = from (occupant s.server.clients i) refl
    where
      pure_keeps : (l : List (Option ℤ)) → Keeps {S = App Q} (Has l) (pure msg)
      pure_keeps l = search keeps_rules

      stays :
          (l : List (Option ℤ))
          → occupant l i ≡ some disconnect_state
          → Keeps {S = App Q} (Has l) (client_at i >>= λ cl. on_input i cl.init_state msg evfd)
      stays l left = reading (Has l) i _ λ s' c' at' has.
          let st : c'.init_state ≡ disconnect_state =
            cc (occupant-states_of s'.server.clients i c' at', has, left) in
          rw st ((pure_keeps l).at s' has)

      from :
          (o : Option (ClientData Q))
          → occupant s.server.clients i ≡ o
          → Moved true msg i s
              ((update_at i (λ c. set_state c disconnect_state)
                  >> (client_at i >>= λ cl. on_input i (get_state cl) msg evfd))
                s).1
      from none e = inl (ap (λ (t : App Q). states_of t.server.clients) (absent _ _ s e))
      from (some c) e =
          moving msg i true (λ c'. set_state c' disconnect_state) _ s c c.init_state
            disconnect_state e refl refl (leave _ refl d)
            (stays _ (occupant-set_at _ i _ (occupant-states_of s.server.clients i c e)))

  -- One call of `process_client_state` leaves the states of all clients as they are, or makes one
  -- move of the state machine with the client it is called for: a request is noted on input,
  -- confirmed on output and finished on input, and a client that says it leaves goes to the state
  -- of the disconnected. So no state is skipped, and none is entered without its message.
  pub process_client_state-Moved :
      (fuel : ℕ) (input : Bool) (evfd : ℤ) (s : App Q)
      → Moved input msg i s (process_client_state fuel input msg i evfd s).1
  unfolding process_client_state get_state monad
  process_client_state-Moved fuel true evfd s =
      elim (Bool-cases (is_action msg Actions.cl_disconnected)) [
        | inl d ↦ rw d (left-Moved evfd s d)
        | inr d ↦
            rw d
              (reading-Moved true s (λ cl. on_input i cl.init_state msg evfd) (input-Moved evfd s))
      ]
  process_client_state-Moved fuel false evfd s =
      reading-Moved false s (λ cl. on_output fuel i cl.init_state msg) (output-Moved fuel s)
