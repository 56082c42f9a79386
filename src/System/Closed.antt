-- ===== src/System/Closed.antt =====
-- What a predicate on the state of the server must survive to survive every member function but
-- `accept_client`: the interface between the invariants and the code.
use chat_app.Common.{ℕ, ◌≡◌, ◌⊎◌, refl, some, true, ℤ, M}
use chat_app.Common.Keeps.{Keeps}
use chat_app.Text.{Bytes}
use chat_app.Kernel.{Trace}
use chat_app.Queues.{StringQueue}
use chat_app.State.{ClientData, Manager, App, occupant, os_call, put_client}
use chat_app.Server.{disconnect_client}

module _ {Q : Type 0} ⦃queue : StringQueue Q⦄ where
  -- The queue of a client as it was, or without its oldest text.
  abbrev pub IsTaken : Q → Q → Type 0
  IsTaken q' q = (q' ≡ q) ⊎ ((text : Bytes) × (queue.try_pop q ≡ some (text, q')))

  -- What a predicate must survive to survive all that a worker does.
  pub record IsServed (P : App Q → Type 0) : Type 0 where
    pub called : (t : Trace) (s : App Q) → P s → P (record s { trace = t })
    pub managed : (m : Manager Q) (s : App Q) → P s → P (record s { manager = m })
    pub rewritten :
        (i : ℕ) (c c' : ClientData Q) (s : App Q)
        → occupant s.server.clients i ≡ some c
        → c'.personal_id ≡ c.personal_id
        → IsTaken c'.send_queue c.send_queue
        → P s
        → P (record s { server = put_client i c' s.server })

  -- What a predicate must survive to survive all that the listener does with a message.
  pub record IsListened (P : App Q → Type 0) : Type 0 where
    pub called : (t : Trace) (s : App Q) → P s → P (record s { trace = t })
    pub managed : (m : Manager Q) (s : App Q) → P s → P (record s { manager = m })
    pub pushed :
        (i : ℕ) (c : ClientData Q) (text : Bytes) (s : App Q)
        → occupant s.server.clients i ≡ some c
        → P s
        → P (record s {
          server =
              put_client i
                (record c { send_queue = (queue.try_push c.send_queue text).1 })
                s.server;
        })
    pub finished : (s : App Q) → P s → P (record s { server = record s.server { done = true } })
    pub disconnected : (id : ℤ) (s : App Q) → P s → P (disconnect_client id s).1

pub record IsClosed {Q : Type 0} (P : App Q → Type 0) : Type 0 where
  pub called : (t : Trace) (s : App Q) → P s → P (record s { trace = t })
  pub managed : (m : Manager Q) (s : App Q) → P s → P (record s { manager = m })
  pub rewritten :
      (i : ℕ) (c c' : ClientData Q) (s : App Q)
      → occupant s.server.clients i ≡ some c
      → c'.personal_id ≡ c.personal_id
      → P s
      → P (record s { server = put_client i c' s.server })
  pub finished : (s : App Q) → P s → P (record s { server = record s.server { done = true } })
  pub disconnected : (id : ℤ) (s : App Q) → P s → P (disconnect_client id s).1

module _ {Q : Type 0} ⦃queue : StringQueue Q⦄ {P : App Q → Type 0} where
  -- Whatever is kept by all members is kept by a worker, and by the listener.
  instance pub served_closed : ⦃closed : IsClosed P⦄ → IsServed P
  served_closed ⦃closed⦄ = record {
    called = closed.called;
    managed = closed.managed;
    rewritten = λ i c c' s at same taken v. closed.rewritten i c c' s at same v;
  }

  pub os_call-Keeps : ⦃served : IsServed P⦄ → {A : Type 0} (m : M Trace A) → Keeps P (os_call m)
  unfolding os_call
  os_call-Keeps ⦃served⦄ m = record { at = λ s h. served.called _ s h }

  instance pub listened_closed : ⦃closed : IsClosed P⦄ → IsListened P
  listened_closed ⦃closed⦄ = record {
    called = closed.called;
    managed = closed.managed;
    pushed = λ i c text s at v.
        closed.rewritten i c (record c { send_queue = (queue.try_push c.send_queue text).1 }) s at
          refl v;
    finished = closed.finished;
    disconnected = closed.disconnected;
  }

  -- The same for the listener.
  pub call-Keeps : ⦃listened : IsListened P⦄ → {A : Type 0} (m : M Trace A) → Keeps P (os_call m)
  unfolding os_call
  call-Keeps ⦃listened⦄ m = record { at = λ s h. listened.called _ s h }

  pub disconnect_client-Keeps :
      ⦃listened : IsListened P⦄ → (id : ℤ) → Keeps P (disconnect_client id)
  disconnect_client-Keeps ⦃listened⦄ id = record { at = listened.disconnected id }
