-- ===== src/Handshake/States.antt =====
-- The states of the clients as a state machine, and the one move that a call may make.
use chat_app.Common.{
  ℕ, zero, suc, ◌≡◌, ◌⊎◌, refl, sym, ap, ◌∙◌, inl, inr, Bool, true, false, List, [], ◌∷◌, Option,
  none, some, arith, ℤ, set, M, monad, skip, ◌>>◌, ok,
}
use chat_app.Common.Keeps.{Keeps, keeps_rules, Keeps-modify, Keeps-bind, bind_ok}
use chat_app.Text.{Bytes}
use chat_app.Message.{ServerMessage}
use chat_app.Resources.{
  Actions, disconnect_state, initial_state, requested_init, sent_init_confirmation, init_done_state,
}
use chat_app.Kernel.{Kernel, Trace}
use chat_app.Queues.{StringQueue}
use chat_app.State.{ClientData, App, occupant, os_call, put_client, on_server, update_at}
use chat_app.State.Access.{reading}
use chat_app.Server.{send_msg, get_selected_client_fd, available, get_client_ref}
use chat_app.Manager.{worker_push}
use chat_app.Listener.{is_action}
use chat_app.Handshake.{drain}

abbrev pub states_of : {Q : Type 0} → List (Option (ClientData Q)) → List (Option ℤ)
states_of [] = []
states_of (none ∷ xs) = none ∷ states_of xs
states_of (some c ∷ xs) = some c.init_state ∷ states_of xs

-- The moves that a call with `msg` may make; `input` tells a readable socket from a writable one.
pub data Step (input : Bool) (msg : ServerMessage) : ℤ → ℤ → Type 0 where
  request :
      input ≡ true
      → is_action msg Actions.init_req ≡ true
      → Step input msg initial_state requested_init
  confirm : input ≡ false → Step input msg requested_init sent_init_confirmation
  finish :
      input ≡ true
      → is_action msg Actions.init_done ≡ true
      → Step input msg sent_init_confirmation init_done_state
  leave :
      (state : ℤ)
      → input ≡ true
      → is_action msg Actions.cl_disconnected ≡ true
      → Step input msg state disconnect_state

states_of-set :
    {Q : Type 0} (xs : List (Option (ClientData Q))) (i : ℕ) (c : ClientData Q)
    → states_of (set xs i (some c)) ≡ set (states_of xs) i (some c.init_state)
states_of-set [] i c = refl
states_of-set (none ∷ xs) zero c = refl
states_of-set (some d ∷ xs) zero c = refl
states_of-set (none ∷ xs) (suc i) c = ap (λ ys. none ∷ ys) (states_of-set xs i c)
states_of-set (some d ∷ xs) (suc i) c = ap (λ ys. some d.init_state ∷ ys) (states_of-set xs i c)

pub occupant-states_of :
    {Q : Type 0} (xs : List (Option (ClientData Q))) (i : ℕ) (c : ClientData Q)
    → occupant xs i ≡ some c
    → occupant (states_of xs) i ≡ some c.init_state
occupant-states_of [] i c e = cc
occupant-states_of (none ∷ xs) zero c e = cc
occupant-states_of (some d ∷ xs) zero c e = cc
occupant-states_of (none ∷ xs) (suc i) c e = occupant-states_of xs i c e
occupant-states_of (some d ∷ xs) (suc i) c e = occupant-states_of xs i c e

-- Writing back a client whose state did not change.
states_of-same :
    {Q : Type 0} (xs : List (Option (ClientData Q))) (i : ℕ) (c c' : ClientData Q)
    → occupant xs i ≡ some c
    → c'.init_state ≡ c.init_state
    → states_of (set xs i (some c')) ≡ states_of xs
states_of-same [] i c c' e same = refl
states_of-same (none ∷ xs) zero c c' e same = cc
states_of-same (some d ∷ xs) zero c c' e same =
    let d_is : d ≡ c = cc e in
    ap (λ z. some z ∷ states_of xs) (same ∙ ap (λ (a : ClientData _). a.init_state) (sym d_is))
states_of-same (none ∷ xs) (suc i) c c' e same =
    ap (λ ys. none ∷ ys) (states_of-same xs i c c' e same)
states_of-same (some d ∷ xs) (suc i) c c' e same =
    ap (λ ys. some d.init_state ∷ ys) (states_of-same xs i c c' e same)

module _ {Q : Type 0} (l : List (Option ℤ)) where
  abbrev pub Has : App Q → Type 0
  Has s = states_of s.server.clients ≡ l

  os_call-Keeps : {A : Type 0} (m : M Trace A) → Keeps Has (os_call m)
  unfolding os_call
  os_call-Keeps m = record { at = λ s h. h }

  available-Keeps : (o : Option ℕ) → Keeps Has (available {Q = Q} o)
  available-Keeps none = search keeps_rules
  available-Keeps (some i) = search keeps_rules

  pub update_at-Keeps :
      (i : ℕ) (f : ClientData Q → ClientData Q)
      → ((c : ClientData Q) → (f c).init_state ≡ c.init_state)
      → Keeps Has (update_at i f)
  unfolding monad
  update_at-Keeps i f same =
      reading Has i (λ c. on_server (put_client i (f c)))
        λ s c at p. states_of-same s.server.clients i c (f c) at (same c) ∙ p

module _ {Q : Type 0} ⦃queue : StringQueue Q⦄ ⦃os : Kernel⦄ (l : List (Option ℤ)) where
  pub send_msg-Keeps : (text : Bytes) (id : ℤ) → Keeps {S = App Q} (Has l) (send_msg text id)
  unfolding send_msg get_selected_client_fd get_client_ref
  send_msg-Keeps text id = search (keeps_rules, os_call-Keeps, available-Keeps) depth 9

  pub worker_push-Keeps :
      (msg : ServerMessage) (evfd : ℤ) → Keeps {S = App Q} (Has l) (worker_push msg evfd)
  unfolding worker_push
  worker_push-Keeps msg evfd = search (keeps_rules, os_call-Keeps, Keeps-modify) depth 9

  pub drain-Keeps : (fuel i : ℕ) → Keeps {S = App Q} (Has l) (drain fuel i)
  unfolding monad
  drain-Keeps zero i = search keeps_rules
  drain-Keeps (suc fuel) i =
      reading (Has l) i
        (λ c. elim (queue.try_pop c.send_queue) [
          | none ↦ skip
          | some (text, q) ↦
              on_server (put_client i (record c { send_queue = q }))
              >> (send_msg text c.personal_id >> drain fuel i)
        ])
        λ s c at p. next s c at p (drain-Keeps fuel i) (queue.try_pop c.send_queue)
    where
      next :
          (s : App Q) (c : ClientData Q)
          → occupant s.server.clients i ≡ some c
          → Has l s
          → Keeps {S = App Q} (Has l) (drain fuel i)
          → (o : Option (Bytes × Q))
          → Has l
              (elim o as (λ _. M (App Q) (Unit {0})) [
                | none ↦ skip
                | some (text, q) ↦
                    on_server (put_client i (record c { send_queue = q }))
                    >> (send_msg text c.personal_id >> drain fuel i)
              ]
                s).1
      next s c at p rest none = p
      next s c at p rest (some (text, q)) =
          (Keeps-bind (send_msg text c.personal_id) (λ _. drain fuel i)
              (send_msg-Keeps text c.personal_id) (λ _. rest)).at
            (record s { server = put_client i (record c { send_queue = q }) s.server })
            (states_of-same s.server.clients i c (record c { send_queue = q }) at refl ∙ p)

-- The call made no move, or the client in slot `i` made one; the other clients' states are the same.
abbrev pub Moved : {Q : Type 0} → Bool → ServerMessage → ℕ → App Q → App Q → Type 0
Moved input msg i s s' =
    let before = states_of s.server.clients in
    let after = states_of s'.server.clients in
    (after ≡ before)
    ⊎ ((state : ℤ) × (state' : ℤ) × (occupant before i ≡ some state)
        × Step input msg state state'
        × (after ≡ set before i (some state')))

module _ {Q : Type 0} ⦃queue : StringQueue Q⦄ ⦃os : Kernel⦄ (msg : ServerMessage) (i : ℕ) where
  abbrev written : (ClientData Q → ClientData Q) → App Q → ClientData Q → App Q
  written f s c = record s { server = put_client i (f c) s.server }

  updated :
      (f : ClientData Q → ClientData Q) (s : App Q) (c : ClientData Q)
      → occupant s.server.clients i ≡ some c
      → update_at i f s ≡ (ok tt, written f s c)
  unfolding monad
  updated f s c at = ground (arith, at)

  -- A client in `state` is written back in `state'`; what follows changes no state.
  pub moving :
      (input : Bool) {A : Type 0} (f : ClientData Q → ClientData Q) (k : M (App Q) A) (s : App Q)
      (c : ClientData Q) (state state' : ℤ)
      → occupant s.server.clients i ≡ some c
      → c.init_state ≡ state
      → (f c).init_state ≡ state'
      → Step input msg state state'
      → Keeps (Has (set (states_of s.server.clients) i (some state'))) k
      → Moved input msg i s ((update_at i f >> k) s).1
  unfolding monad
  moving input f k s c state state' at before after step keeps = inr (
    state,
    state',
    occupant-states_of s.server.clients i c at ∙ ap some before,
    step,
    rw (bind_ok (update_at i f) k s _ (updated f s c at)) (
        keeps.at (written f s c) (
          states_of-set s.server.clients i (f c)
          ∙ ap (λ (st : ℤ). set (states_of s.server.clients) i (some st)) after)),
  )

  pub unmoved :
      (input : Bool) {A : Type 0} (m : M (App Q) A) (s : App Q)
      → ((l : List (Option ℤ)) → Keeps (Has l) m)
      → Moved input msg i s (m s).1
  unmoved input m s keeps = inl ((keeps _).at s refl)
