-- ===== src/Room/Refine.antt =====
-- The calls of the server against the room.
use chat_app.Common.{
  ℕ, ◌^◌, ◌<◌, ◌≡◌, ◌⊎◌, sym, ap, ◌∙◌, subst, fun_ext, inl, inr, false, Bool, none, arith,
  Bool-cases, ℤ, pos, int_eq, int_eq_iff, to_int32, is_negative, ok,
}
use chat_app.Kernel.{Kernel, Accepted}
use chat_app.Queues.{StringQueue}
use chat_app.State.{App}
use chat_app.Slots.Lookup.{find_client-none, reset_client_lem}
use chat_app.Server.{accept_client, disconnect_client}
use chat_app.Server.Accept.{accept_client-Settles}
use chat_app.Server.Identifiers.{IsFresh}
use chat_app.Server.Disconnect.{disconnect_client-cases}
use chat_app.Room.{Room, enter, leave, mailbox, room_of}
use chat_app.Room.Mailboxes.{IsAbsent, mailbox-absent, mailbox-reset_client, mailbox-set_free}

nobody_leaves : (id : ℤ) (r : Room) (k : ℤ) → r id ≡ none → r k ≡ leave id r k
nobody_leaves id r k e = elim (Bool-cases (int_eq id k)) [
  | inl same ↦ let is : id ≡ k = (int_eq_iff id k).0 same in rw same (subst (λ j. r j ≡ none) is e)
  | inr other ↦ rw other
]

module _ {Q : Type 0} ⦃queue : StringQueue Q⦄ where
  -- Whoever is disconnected leaves the room; so does nobody if the call throws.
  pub disconnect_client-leave :
      (id : ℤ) (s : App Q) → IsFresh s → room_of (disconnect_client id s).1 ≡ leave id (room_of s)
  disconnect_client-leave id s v = fun_ext λ k. elim (disconnect_client-cases id s) [
    | inl (missing, e) ↦ rw e (
        nobody_leaves id (room_of s) k
          (mailbox-absent id s.server.clients (find_client-none id s.server.clients missing)))
    | inr (i, c, found, at, has, e) ↦ rw e (
        ap (λ xs. mailbox xs k) (sym (reset_client_lem id s.server.clients i found))
        ∙ mailbox-reset_client id s.server.clients k v.unique)
  ]

module _ {Q : Type 0} ⦃queue : StringQueue Q⦄ ⦃os : Kernel⦄ where
  next_is_new :
      (s : App Q) → IsFresh s → s.next_id < 2 ^ 31 → IsAbsent (to_int32 s.next_id) s.server.clients
  next_is_new s v small i c at same = let (k, has, below) = v.issued i c at in ground (arith, same)

  -- A connection that the kernel hands out brings a new member with no text into the room, under
  -- the identifier that the call returns; or the room is as before.
  pub accept_client-enter :
      (b : Bool) (n : ℕ) (s : App Q)
      → IsFresh s
      → s.next_id < 2 ^ 31
      → is_negative s.server.sv_socket ≡ false
      → os.accept_result s.trace s.server.sv_socket ≡ Accepted.socket n
      → let (r, s') = accept_client b s in
        ((r ≡ ok (pos n, pos s.next_id)) × (room_of s' ≡ enter (pos s.next_id) (room_of s)))
        ⊎ (room_of s' ≡ room_of s)
  accept_client-enter b n s v small listening comes =
      let is : to_int32 s.next_id ≡ pos s.next_id = ground arith in
      elim (accept_client-Settles b n s listening comes) [
        | inl e ↦ inl (
          e.result ∙ ap (λ (k : ℤ). ok (pos n, k)) is,
          fun_ext λ k.
              ap (λ xs. mailbox xs k) e.table
              ∙ (mailbox-set_free s.server.clients e.slot e.client k e.first_free
                    (subst (λ (j : ℤ). IsAbsent j s.server.clients) (sym e.id)
                      (next_is_new s v small))
                    e.no_texts
                  ∙ ap (λ (j : ℤ). enter j (room_of s) k) (e.id ∙ is)),
        )
        | inr e ↦ inr (ap (λ sv. mailbox sv.clients) e.server)
      ]
