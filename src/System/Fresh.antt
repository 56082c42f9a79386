-- ===== src/System/Fresh.antt =====
-- The identifiers of the clients are a predicate of the interface, and a round of the listener
-- keeps them distinct while the counter is below 2^31.
use chat_app.Common.{ℕ, ◌<◌, ◌≡◌, ◌≢◌, ◌⊎◌, refl, sym, inl, inr, ap, ◌∙◌, some, ℤ, pos}
use chat_app.State.{ClientData, App, occupant, put_client}
use chat_app.Server.{disconnect_client}
use chat_app.Server.Identifiers.{IsFresh, IsFresh-same, occupant-set}
use chat_app.Server.Disconnect.{disconnect_client-cases, disconnect_client-IsFresh}
use chat_app.Manager.Broadcast.{set-IsUnique}
use chat_app.System.Closed.{IsClosed}

module _ {Q : Type 0} where
  rewritten-IsFresh :
      (i : ℕ) (c c' : ClientData Q) (s : App Q)
      → occupant s.server.clients i ≡ some c
      → c'.personal_id ≡ c.personal_id
      → IsFresh s
      → IsFresh (record s { server = put_client i c' s.server })
  rewritten-IsFresh i c c' s at same v = record {
    issued = λ j d there. issued j d (occupant-set s.server.clients i j (some c') {a = d} there);
    unique = set-IsUnique s.server.clients i c c' at same v.unique;
  }
    where
      issued :
          (j : ℕ) (d : ClientData Q)
          → ((j ≡ i) × (some c' ≡ some d)) ⊎ ((j ≢ i) × (occupant s.server.clients j ≡ some d))
          → (k : ℕ) × (d.personal_id ≡ pos k) × (k < s.next_id)
      issued j d (inl (_, e)) =
          let (k, has, below) = v.issued i c at in
          let c_is : c' ≡ d = cc e in
          (k, ap (λ (a : ClientData Q). a.personal_id) (sym c_is) ∙ (same ∙ has), below)
      issued j d (inr (_, e)) = v.issued j d e

  instance pub fresh_closed : IsClosed {Q = Q} IsFresh
  fresh_closed = record {
    called = λ t s v. IsFresh-same s _ refl refl v;
    managed = λ m s v. IsFresh-same s _ refl refl v;
    rewritten = rewritten-IsFresh;
    finished = λ s v. IsFresh-same s _ refl refl v;
    disconnected = λ id s v. (disconnect_client-IsFresh id s v).0;
  }

  -- The same, with the counter at `n`.
  abbrev pub IsFreshAt : ℕ → App Q → Type 0
  IsFreshAt n s = IsFresh s × (s.next_id ≡ n)

  disconnect_client-next_id : (id : ℤ) (s : App Q) → (disconnect_client id s).1.next_id ≡ s.next_id
  disconnect_client-next_id id s = elim (disconnect_client-cases id s) [
    | inl (_, e) ↦ rw e
    | inr (_, _, _, _, _, e) ↦ rw e
  ]

  instance pub fresh_at_closed : {n : ℕ} → IsClosed {Q = Q} (IsFreshAt n)
  fresh_at_closed = record {
    called = λ t s (v, e). (fresh_closed.called t s v, e);
    managed = λ m s (v, e). (fresh_closed.managed m s v, e);
    rewritten = λ i c c' s at same (v, e). (fresh_closed.rewritten i c c' s at same v, e);
    finished = λ s (v, e). (fresh_closed.finished s v, e);
    disconnected =
        λ id s (v, e). (fresh_closed.disconnected id s v, disconnect_client-next_id id s ∙ e);
  }
