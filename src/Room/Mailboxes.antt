-- ===== src/Room/Mailboxes.antt =====
-- The table of clients seen as a room: what each change of the table does to it.
use chat_app.Common.{
  ℕ, suc, ◌≡◌, ◌≢◌, refl, sym, inl, inr, List, [], ◌∷◌, Option, none, some, arith, Bool-cases, ℤ,
  int_eq, int_eq_iff, set, subst, zero, Bool, true, false, if◌then◌else◌,
}
use chat_app.Text.{Bytes}
use chat_app.Queues.{StringQueue}
use chat_app.State.{ClientData, occupant}
use chat_app.Slots.{free_slot, reset_client}
use chat_app.Slots.Counts.{next_slot-some}
use chat_app.Slots.Lookup.{IsUnique}
use chat_app.Manager.Broadcast.{HasRoom, all_with_text}
use chat_app.Room.{say, enter, leave, mailbox}

module _ {Q : Type 0} ⦃queue : StringQueue Q⦄ where
  pub mailbox-all_with_text :
      (id : ℤ) (text : Bytes) (xs : List (Option (ClientData Q))) (k : ℤ)
      → HasRoom id text xs
      → mailbox (all_with_text id text xs) k ≡ say id text (mailbox xs) k
  mailbox-all_with_text id text [] k room = elim (Bool-cases (int_eq id k)) [
    | inl e ↦ rw e
    | inr e ↦ rw e
  ]
  mailbox-all_with_text id text (none ∷ xs) k room =
      mailbox-all_with_text id text xs k (λ i c. room (suc i) c)
  mailbox-all_with_text id text (some c ∷ xs) k room =
      let ih = mailbox-all_with_text id text xs k (λ i d. room (suc i) d) in
      let pushed = (queue.push_room c.send_queue text (room 0 c refl)).1 in
      ground (
        arith,
        ih,
        pushed,
        int_eq_iff id c.personal_id,
        int_eq_iff c.personal_id k,
        int_eq_iff id k,
      )

  -- Nobody in the table has the identifier.
  abbrev pub IsAbsent : ℤ → List (Option (ClientData Q)) → Type 0
  IsAbsent k xs = (i : ℕ) (c : ClientData Q) → occupant xs i ≡ some c → c.personal_id ≢ k

  pub mailbox-absent :
      (k : ℤ) (xs : List (Option (ClientData Q))) → IsAbsent k xs → mailbox xs k ≡ none
  mailbox-absent k [] h = refl
  mailbox-absent k (none ∷ xs) h = mailbox-absent k xs (λ i c. h (suc i) c)
  mailbox-absent k (some c ∷ xs) h =
      ground
        (arith, mailbox-absent k xs (λ i d. h (suc i) d), h 0 c refl, int_eq_iff c.personal_id k)

  pub tail-IsUnique :
      (o : Option (ClientData Q)) (xs : List (Option (ClientData Q)))
      → IsUnique (o ∷ xs)
      → IsUnique xs
  tail-IsUnique o xs u i j c d at there same = omega (arith, u (suc i) (suc j) c d at there same)

  pub others-IsAbsent :
      (c : ClientData Q) (xs : List (Option (ClientData Q)))
      → IsUnique (some c ∷ xs)
      → IsAbsent c.personal_id xs
  others-IsAbsent c xs u i d at same = absurd (omega (arith, u 0 (suc i) c d refl at (sym same)))

  pub mailbox-reset_client :
      (id : ℤ) (xs : List (Option (ClientData Q))) (k : ℤ)
      → IsUnique xs
      → mailbox (reset_client id xs) k ≡ leave id (mailbox xs) k
  unfolding reset_client
  mailbox-reset_client id [] k u = elim (Bool-cases (int_eq id k)) [ inl e ↦ rw e | inr e ↦ rw e ]
  mailbox-reset_client id (none ∷ xs) k u = mailbox-reset_client id xs k (tail-IsUnique none xs u)
  mailbox-reset_client id (some c ∷ xs) k u = ground (
    arith,
    mailbox-reset_client id xs k (tail-IsUnique (some c) xs u),
    mailbox-absent c.personal_id xs (others-IsAbsent c xs u),
    int_eq_iff c.personal_id id,
    int_eq_iff c.personal_id k,
    int_eq_iff id k,
  )

  pub mailbox-set_free :
      (xs : List (Option (ClientData Q))) (i : ℕ) (c : ClientData Q) (k : ℤ)
      → free_slot xs ≡ some i
      → IsAbsent c.personal_id xs
      → queue.contents c.send_queue ≡ []
      → mailbox (set xs i (some c)) k ≡ enter c.personal_id (mailbox xs) k
  unfolding free_slot
  mailbox-set_free [] i c k e new nothing = cc
  mailbox-set_free (none ∷ xs) i c k e new nothing =
      let zero_is : i ≡ 0 = ground arith in rw (zero_is, nothing)
  mailbox-set_free (some d ∷ xs) i c k e new nothing =
      let (j, found, is) = next_slot-some (free_slot xs) i e in
      let ih = mailbox-set_free xs j c k found (λ n b. new (suc n) b) nothing in
      subst
        (λ n.
          mailbox (set (some d ∷ xs) n (some c)) k ≡ enter c.personal_id (mailbox (some d ∷ xs)) k)
        is
        (ground (
          arith,
          ih,
          new 0 d refl,
          int_eq_iff d.personal_id k,
          int_eq_iff c.personal_id k,
          int_eq_iff d.personal_id c.personal_id,
        ))

module _ (R : Option (List Bytes) → Option (List Bytes) → Type 0) where
  on_test :
      (b : Bool) (o o' p p' : Option (List Bytes))
      → R o o'
      → R p p'
      → R (if b then o else p) (if b then o' else p')
  on_test true o o' p p' first second = first
  on_test false o o' p p' first second = second

-- A relation between what waits for somebody before and after a change.
module _ {Q : Type 0} ⦃queue : StringQueue Q⦄
    (R : Option (List Bytes) → Option (List Bytes) → Type 0)
    (same_again : (o : Option (List Bytes)) → R o o) where
  -- One client is rewritten under its own identifier.
  pub mailbox-rewritten :
      (xs : List (Option (ClientData Q))) (i : ℕ) (c c' : ClientData Q) (k : ℤ)
      → occupant xs i ≡ some c
      → c'.personal_id ≡ c.personal_id
      → R (some (queue.contents c'.send_queue)) (some (queue.contents c.send_queue))
      → R (mailbox (set xs i (some c')) k) (mailbox xs k)
  mailbox-rewritten [] i c c' k here same changed = same_again none
  mailbox-rewritten (none ∷ xs) zero c c' k here same changed = cc
  mailbox-rewritten (none ∷ xs) (suc i) c c' k here same changed =
      mailbox-rewritten xs i c c' k here same changed
  mailbox-rewritten (some d ∷ xs) zero c c' k here same changed =
      let d_is : c ≡ d = cc in
      subst (λ (a : ClientData Q). R (mailbox (some c' ∷ xs) k) (mailbox (some a ∷ xs) k)) d_is
        (subst
          (λ id.
            R (if int_eq id k then some (queue.contents c'.send_queue) else mailbox xs k)
              (mailbox (some c ∷ xs) k))
          (sym same)
          (on_test R (int_eq c.personal_id k) _ _ _ _ changed (same_again (mailbox xs k))))
  mailbox-rewritten (some d ∷ xs) (suc i) c c' k here same changed =
      on_test R (int_eq d.personal_id k) _ _ _ _ (same_again (some (queue.contents d.send_queue)))
        (mailbox-rewritten xs i c c' k here same changed)
