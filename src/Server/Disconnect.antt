-- ===== src/Server/Disconnect.antt =====
-- What `disconnect_client` does, and that the client is gone afterwards.
use chat_app.Common.{
  ℕ, ◌≡◌, ◌⊎◌, refl, inl, inr, none, some, ◌∷◌, arith, set, ℤ, ok, throw, runtime_error, monad,
  Option-cases, sym, ◌+◌, ◌-◌, ◌^◌, ◌%◌,
}
use chat_app.Kernel.{closed}
use chat_app.State.{ClientData, App, occupant, os_call}
use chat_app.Slots.{find_client}
use chat_app.Slots.Lookup.{IsUnique, find_client_sound, reset_client_lem}
use chat_app.Server.{disconnect_client}
use chat_app.Server.Identifiers.{IsFresh, disconnected-IsFresh, occupant-set}

-- The state after client `c` of slot `i` has been disconnected.
abbrev pub after_disconnect : {Q : Type 0} → ℕ → ClientData Q → App Q → App Q
after_disconnect i c s = record s {
  server = record s.server {
    nr_of_connections = (s.server.nr_of_connections + (2 ^ 32 - 1)) % 2 ^ 32;
    clients = set s.server.clients i none;
  };
  trace = closed c.fd ∷ s.trace;
}

module _ {Q : Type 0} (id : ℤ) (s : App Q) where
  pub found-eq :
      (i : ℕ) (c : ClientData Q)
      → find_client id s.server.clients ≡ some i
      → occupant s.server.clients i ≡ some c
      → disconnect_client id s ≡ (ok tt, after_disconnect i c s)
  unfolding disconnect_client monad os_call
  found-eq i c e at = ground (arith, reset_client_lem id s.server.clients i e)

  missing-eq :
      find_client id s.server.clients ≡ none
      → disconnect_client id s ≡ (throw (runtime_error "Client not found\n"), s)
  unfolding disconnect_client monad os_call
  missing-eq e = rw e

  -- Either nobody has the identifier, and the call throws and changes nothing; or some client has
  -- it, and the call closes that client's socket, empties that slot, leaves every other slot as it
  -- was, and lowers the 32-bit counter of connections by one, modulo 2 ^ 32.
  pub disconnect_client-cases :
      ((find_client id s.server.clients ≡ none)
        × (disconnect_client id s ≡ (throw (runtime_error "Client not found\n"), s)))
      ⊎ ((i : ℕ) × (c : ClientData Q) × (find_client id s.server.clients ≡ some i)
          × (occupant s.server.clients i ≡ some c)
          × (c.personal_id ≡ id)
          × (disconnect_client id s ≡ (ok tt, after_disconnect i c s)))
  disconnect_client-cases = elim (Option-cases (find_client id s.server.clients)) [
    | inl e ↦ inl (e, missing-eq e)
    | inr (i, e) ↦
        let (c, at, has) = find_client_sound id s.server.clients i e in
        inr (i, c, e, at, has, found-eq i c e at)
  ]

  gone :
      (i : ℕ) (c : ClientData Q)
      → IsUnique s.server.clients
      → find_client id s.server.clients ≡ some i
      → occupant s.server.clients i ≡ some c
      → c.personal_id ≡ id
      → find_client id (set s.server.clients i none) ≡ none
  gone i c u e at has = elim (Option-cases (find_client id (set s.server.clients i none))) [
    | inl missing ↦ missing
    | inr (j, again) ↦
        let (d, there, same) = find_client_sound id (set s.server.clients i none) j again in
        absurd (twice j d same there)
  ]
    where
      twice :
          (j : ℕ) (d : ClientData Q)
          → d.personal_id ≡ id
          → occupant (set s.server.clients i none) j ≡ some d
          → ⊥
      twice j d same there =
          ground (arith, occupant-set s.server.clients i j none {a = d} there, u j i d c)

  -- Disconnecting keeps the identifiers of the connected clients distinct and handed out by the
  -- counter, and after a call that succeeds nobody is found under the identifier.
  pub disconnect_client-IsFresh :
      IsFresh s
      → IsFresh (disconnect_client id s).1
        × ((disconnect_client id s).0 ≡ ok tt
            → find_client id (disconnect_client id s).1.server.clients ≡ none)
  disconnect_client-IsFresh v = elim disconnect_client-cases [
    | inl (e, same) ↦ rw same (v, λ q. absurd (cc q))
    | inr (i, c, e, at, has, same) ↦ rw same (
      disconnected-IsFresh s (after_disconnect i c s) id
          (sym (reset_client_lem id s.server.clients i e)) refl i e v,
      λ _. gone i c v.unique e at has,
    )
  ]
