-- ===== src/Client/Dialogue.antt =====
-- What a client says to the server over its life, in order, and the calls of the client that keep
-- to it.
use chat_app.Common.{
  ℕ, ◌≡◌, refl, sym, subst, inl, inr, Bool, true, false, List, [], ◌∷◌, Option-cases, ℤ, pos, M,
  monad,
}
use chat_app.Common.Keeps.{Keeps}
use chat_app.Text.{Bytes}
use chat_app.Message.{ServerMessage, get_concatenated_msg}
use chat_app.Resources.{Actions, get_action}
use chat_app.Kernel.{Kernel, Trace, sent}
use chat_app.Client.{Process, os_call, done_msg}
use chat_app.Client.Calls.{send_msg}

-- The texts given to the kernel to send, with the socket, the newest first.
abbrev pub sends : Trace → List (ℤ × Bytes)
sends [] = []
sends (sent fd text ∷ t) = (fd, text) ∷ sends t
sends (_ ∷ t) = sends t

-- The dialogue of the client of socket `fd` and of this name: whether it has asked to be
-- initialised, whether it has confirmed, its identifier, and the texts that it has sent.
pub data Said (fd : ℕ) (name : Bytes) : Bool → Bool → Bytes → List (ℤ × Bytes) → Type 0 where
  silent : Said fd name false false [] []
  asks :
      {b : Bool} {id : Bytes} {texts : List (ℤ × Bytes)} (m : ServerMessage)
      → m.action ≡ get_action Actions.init_req
      → m.name ≡ name
      → Said fd name false b id texts
      → Said fd name true b id ((pos fd, get_concatenated_msg m) ∷ texts)
  confirms :
      {id : Bytes} {texts : List (ℤ × Bytes)} (id' : Bytes)
      → Said fd name true false id texts
      → Said fd name true true id' ((pos fd, get_concatenated_msg done_msg) ∷ texts)
  chats :
      {b : Bool} {id : Bytes} {texts : List (ℤ × Bytes)} (m : ServerMessage)
      → m.action ≡ get_action Actions.unicast_repeated
      → m.name ≡ name
      → m.id ≡ id
      → Said fd name true b id texts
      → Said fd name true b id ((pos fd, get_concatenated_msg m) ∷ texts)
  leaves :
      {b : Bool} {id : Bytes} {texts : List (ℤ × Bytes)} (m : ServerMessage)
      → m.action ≡ get_action Actions.cl_disconnected
      → m.name ≡ name
      → m.id ≡ id
      → Said fd name true b id texts
      → Said fd name true b id ((pos fd, get_concatenated_msg m) ∷ texts)

-- The client and its calls keep to the dialogue; with `b`, it has asked to be initialised.
pub record Speaks (fd : ℕ) (name : Bytes) (b : Bool) (s : Process) : Type 0 where
  pub named : s.client.name ≡ name
  pub connected : s.client.cl_socket ≡ pos fd
  pub asked : b ≡ true → s.client.init_req ≡ true
  pub said : Said fd name s.client.init_req s.client.init_done s.client.id (sends s.trace)

module _ {fd : ℕ} {name : Bytes} where
  -- What extends the dialogue of a client that has asked.
  pub extended :
      {a c c' : Bool} {id id' : Bytes} {texts texts' : List (ℤ × Bytes)}
      → a ≡ true
      → (Said fd name true c id texts → Said fd name true c' id' texts')
      → Said fd name a c id texts
      → Said fd name a c' id' texts'
  extended {c} {c'} {id} {id'} {texts} {texts'} is more said =
      subst (λ a. Said fd name a c' id' texts') (sym is)
        (more (subst (λ a. Said fd name a c id texts) is said))

  pub Speaks-asked :
      {s : Process} → s.client.init_req ≡ true → Speaks fd name false s → Speaks fd name true s
  Speaks-asked has h = record {
    named = h.named;
    connected = h.connected;
    asked = λ _. has;
    said = h.said;
  }

  pub Speaks-any : {s : Process} → Speaks fd name true s → Speaks fd name false s
  Speaks-any h = record { named = h.named; connected = h.connected; asked = λ e. cc; said = h.said }

module _ ⦃os : Kernel⦄ where
  -- What a call of `send_msg` leaves, however it ends.
  pub send_msg-sent :
      (fd : ℕ) (text : Bytes) (s : Process)
      → s.client.cl_socket ≡ pos fd
      → (send_msg text s).1 ≡ record s { trace = sent (pos fd) text ∷ s.trace }
  unfolding send_msg monad os_call
  send_msg-sent fd text s at = elim (Option-cases (os.send_result s.trace (pos fd) text)) [
    | inl fails ↦ rw (at, fails) refl
    | inr (n, done) ↦ rw (at, done) refl
  ]

module _ ⦃os : Kernel⦄ (fd : ℕ) (name : Bytes) (b : Bool) where
  -- A call that is no `send`.
  pub quiet-Keeps :
      {A : Type 0} (m : M Trace A)
      → ((t : Trace) → sends (m t).1 ≡ sends t)
      → Keeps (Speaks fd name b) (os_call m)
  unfolding os_call
  quiet-Keeps m same = record {
    at = λ s h. record {
      named = h.named;
      connected = h.connected;
      asked = h.asked;
      said =
          subst (λ ts. Said fd name s.client.init_req s.client.init_done s.client.id ts)
            (sym (same s.trace)) h.said;
    };
  }

  -- A chat line or a farewell that is sent belongs to the dialogue.
  pub Speaks-sent :
      (text : Bytes) (s : Process)
      → s.client.name ≡ name
      → s.client.cl_socket ≡ pos fd
      → (b ≡ true → s.client.init_req ≡ true)
      → Said fd name s.client.init_req s.client.init_done s.client.id
          ((pos fd, text) ∷ sends s.trace)
      → Speaks fd name b (send_msg text s).1
  Speaks-sent text s named at asked said =
      subst (Speaks fd name b) (sym (send_msg-sent fd text s at))
        (record { named = named; connected = at; asked = asked; said = said })
