-- ===== src/Manager/Hearing.antt =====
-- A client that gets a repeated text stays in its slot, under its identifier.
use chat_app.Common.{
  ℕ, zero, suc, ◌≡◌, refl, sym, ap, ◌∙◌, subst, inl, inr, false, List, [], ◌∷◌, Option, none, some,
  if◌then◌else◌, Bool-cases, ℤ, int_eq, is_negative,
}
use chat_app.Text.{Bytes}
use chat_app.Queues.{StringQueue}
use chat_app.State.{ClientData, App, occupant}
use chat_app.Slots.{find_client, next_slot}
use chat_app.Server.Sending.{IsSeated}
use chat_app.Manager.Broadcast.{with_text, all_with_text, with_clients}

module _ {Q : Type 0} ⦃queue : StringQueue Q⦄ (id : ℤ) (text : Bytes) where
  with_text-id : (c : ClientData Q) → (with_text id text c).personal_id ≡ c.personal_id
  with_text-id c = elim (Bool-cases (int_eq id c.personal_id)) [ inl e ↦ rw e | inr e ↦ rw e ]

  with_text-same :
      (c : ClientData Q)
      → ((with_text id text c).fd ≡ c.fd) × ((with_text id text c).init_state ≡ c.init_state)
  with_text-same c = elim (Bool-cases (int_eq id c.personal_id)) [
    | inl e ↦ rw e (refl, refl)
    | inr e ↦ rw e (refl, refl)
  ]

  pub occupant-all_with_text :
      (xs : List (Option (ClientData Q))) (i : ℕ) (c : ClientData Q)
      → occupant xs i ≡ some c
      → occupant (all_with_text id text xs) i ≡ some (with_text id text c)
  occupant-all_with_text [] i c e = cc
  occupant-all_with_text (none ∷ xs) zero c e = cc
  occupant-all_with_text (none ∷ xs) (suc i) c e = occupant-all_with_text xs i c e
  occupant-all_with_text (some d ∷ xs) zero c e =
      let is : d ≡ c = cc e in ap (λ b. some (with_text id text b)) is
  occupant-all_with_text (some d ∷ xs) (suc i) c e = occupant-all_with_text xs i c e

  find_client-all_with_text :
      (k : ℤ) (xs : List (Option (ClientData Q)))
      → find_client k (all_with_text id text xs) ≡ find_client k xs
  unfolding find_client
  find_client-all_with_text k [] = refl
  find_client-all_with_text k (none ∷ xs) = ap next_slot (find_client-all_with_text k xs)
  find_client-all_with_text k (some c ∷ xs) =
      subst
        (λ (a : ℤ).
          (if int_eq a k then some 0 else next_slot (find_client k (all_with_text id text xs)))
          ≡ (if int_eq c.personal_id k then some 0 else next_slot (find_client k xs)))
        (sym (with_text-id c))
        (ap (λ o. if int_eq c.personal_id k then some 0 else next_slot o)
          (find_client-all_with_text k xs))

  -- A client that gets the text stays where it is.
  pub with_text-IsSeated :
      (i : ℕ) (c : ClientData Q) (s s' : App Q)
      → IsSeated i c s
      → s'.server ≡ (with_clients s (all_with_text id text s.server.clients)).server
      → IsSeated i (with_text id text c) s'
  with_text-IsSeated i c s s' v is = record {
    here = rw is (occupant-all_with_text s.server.clients i c v.here);
    named = rw is (
        subst (λ k. find_client k (all_with_text id text s.server.clients) ≡ some i)
          (sym (with_text-id c))
          (find_client-all_with_text c.personal_id s.server.clients ∙ v.named));
    listening = rw is v.listening;
    open_fd = subst (λ (fd : ℤ). is_negative fd ≡ false) (sym (with_text-same c).0) v.open_fd;
  }
