-- ===== src/Server/Identifiers.antt =====
-- No two connected clients share an identifier, as long as the 32-bit counter has not passed the
-- largest int; so a client is found under its own identifier only.
use chat_app.Common.{
  ℕ, zero, suc, ◌<◌, ◌^◌, ◌≡◌, ◌≢◌, ◌⊎◌, refl, sym, ◌∙◌, inl, inr, Bool, List, [], ◌∷◌, Option,
  none, some, arith, length, set, ℤ, pos, is_negative, Outcome, subst, ap, Option-cases, Bool-cases,
  true, false, monad,
}
use chat_app.Kernel.{Kernel, Accepted}
use chat_app.Queues.{StringQueue}
use chat_app.State.{ClientData, App, occupant, os_call}
use chat_app.Slots.{find_client, reset_client}
use chat_app.Slots.Lookup.{IsUnique, find_client_sound, find_client-none, reset_client_lem}
use chat_app.Server.{accept_client}
use chat_app.Server.Accept.{Seated, Settles, accept_client-Settles}

occupant-set_self :
    {A : Type 0} (xs : List (Option A)) (i : ℕ) (v : Option A)
    → i < length xs
    → occupant (set xs i v) i ≡ v
occupant-set_self [] i v h = absurd (omega arith)
occupant-set_self (x ∷ xs) zero v h = refl
occupant-set_self (x ∷ xs) (suc i) v h = occupant-set_self xs i v (omega arith)

-- A slot after a write at `i`: it is slot `i` with the value written, or as before.
pub occupant-set :
    {A : Type 0} (xs : List (Option A)) (i j : ℕ) (v : Option A) {a : A}
    → occupant (set xs i v) j ≡ some a
    → ((j ≡ i) × (v ≡ some a)) ⊎ ((j ≢ i) × (occupant xs j ≡ some a))
occupant-set [] i j v e = cc
occupant-set (x ∷ xs) zero zero v e = inl (refl, e)
occupant-set (x ∷ xs) zero (suc j) v e = inr (omega arith, e)
occupant-set (x ∷ xs) (suc i) zero v e = inr (omega arith, e)
occupant-set (x ∷ xs) (suc i) (suc j) v e = ground (arith, occupant-set xs i j v e)

module _ {Q : Type 0} where
  -- Every identifier in use was handed out by the counter, and to one client only.
  pub record IsFresh (s : App Q) : Type 0 where
    pub issued :
        (i : ℕ) (c : ClientData Q)
        → occupant s.server.clients i ≡ some c
        → (k : ℕ) × (c.personal_id ≡ pos k) × (k < s.next_id)
    pub unique : IsUnique s.server.clients

  -- The search gives the slot of the client with that identifier, wherever it sits.
  pub find_client_unique :
      (xs : List (Option (ClientData Q))) (i : ℕ) (c : ClientData Q)
      → IsUnique xs
      → occupant xs i ≡ some c
      → find_client c.personal_id xs ≡ some i
  find_client_unique xs i c u at = elim (Option-cases (find_client c.personal_id xs)) [
    | inl e ↦ absurd (find_client-none c.personal_id xs e i c at refl)
    | inr (j, e) ↦
        let (d, there, same) = find_client_sound c.personal_id xs j e in
        e ∙ ap some (u j i d c there at same)
  ]

  pub IsFresh-same :
      (s s' : App Q)
      → s'.server.clients ≡ s.server.clients
      → s'.next_id ≡ s.next_id
      → IsFresh s
      → IsFresh s'
  IsFresh-same s s' same next v = record {
    issued =
        λ i c at. let (k, has, below) = v.issued i c (rw (← same) at) in (k, has, rw next below);
    unique = rw same v.unique;
  }

  pub disconnected-IsFresh :
      (s s' : App Q) (id : ℤ)
      → s'.server.clients ≡ reset_client id s.server.clients
      → s'.next_id ≡ s.next_id
      → (i : ℕ) → find_client id s.server.clients ≡ some i
      → IsFresh s
      → IsFresh s'
  disconnected-IsFresh s s' id same next i e v = record {
    issued = λ j c at. let (k, has, below) = v.issued j c (kept j c at) in (k, has, rw next below);
    unique = λ j k c d at there. v.unique j k c d (kept j c at) (kept k d there);
  }
    where
      emptied : s'.server.clients ≡ set s.server.clients i none
      emptied = same ∙ reset_client_lem id s.server.clients i e

      kept :
          (j : ℕ) (c : ClientData Q)
          → occupant s'.server.clients j ≡ some c
          → occupant s.server.clients j ≡ some c
      kept j c at =
          ground (arith, occupant-set s.server.clients i j none {a = c} (rw (← emptied) at))

module _ {Q : Type 0} ⦃queue : StringQueue Q⦄ (s : App Q) (n : ℕ) where
  Seated-IsFresh :
      (r : Outcome (ℤ × ℤ) × App Q)
      → IsFresh s
      → s.next_id < 2 ^ 31
      → Seated s.server s.next_id n r
      → IsFresh r.1
  Seated-IsFresh r v small d = record {
    issued = λ j c at. issued j c (at_slot j c at);
    unique = λ i j c c' at there same. unique i j c c' (at_slot i c at) (at_slot j c' there) same;
  }
    where
      At : ℕ → ClientData Q → Type 0
      At j c =
          ((j ≡ d.slot) × (c.personal_id ≡ pos s.next_id)) ⊎ (occupant s.server.clients j ≡ some c)

      at_slot : (j : ℕ) (c : ClientData Q) → occupant r.1.server.clients j ≡ some c → At j c
      at_slot j c at = from_set (
          occupant-set s.server.clients d.slot j (some d.client) {a = c}
            (subst (λ xs. occupant xs j ≡ some c) d.table at))
        where
          from_set :
              ((j ≡ d.slot) × (some d.client ≡ some c))
                ⊎ ((j ≢ d.slot) × (occupant s.server.clients j ≡ some c))
              → At j c
          from_set (inl (e, p)) = inl (e, ground (arith, d.id))
          from_set (inr (_, p)) = inr p

      issued :
          (j : ℕ) (c : ClientData Q)
          → At j c
          → (k : ℕ) × (c.personal_id ≡ pos k) × (k < r.1.next_id)
      issued j c (inl (e, p)) = (s.next_id, p, omega (arith, d.next))
      issued j c (inr at) = let (k, has, below) = v.issued j c at in (k, has, omega (arith, d.next))

      unique :
          (i j : ℕ) (c c' : ClientData Q)
          → At i c
          → At j c'
          → c.personal_id ≡ c'.personal_id
          → i ≡ j
      unique i j c c' (inl (e, p)) (inl (e', p')) same = e ∙ sym e'
      unique i j c c' (inl (e, p)) (inr there) same =
          let (k, has, below) = v.issued j c' there in absurd (ground arith)
      unique i j c c' (inr at) (inl (e', p')) same =
          let (k, has, below) = v.issued i c at in absurd (ground arith)
      unique i j c c' (inr at) (inr there) same = v.unique i j c c' at there same

module _ {Q : Type 0} ⦃queue : StringQueue Q⦄ ⦃os : Kernel⦄ where
  accepted-IsFresh :
      (b : Bool) (s : App Q) (r : Accepted)
      → is_negative s.server.sv_socket ≡ false
      → os.accept_result s.trace s.server.sv_socket ≡ r
      → IsFresh s
      → s.next_id < 2 ^ 31
      → IsFresh (accept_client b s).1
  unfolding accept_client monad os_call
  accepted-IsFresh b s Accepted.again listening e v small =
      rw (listening, e) (IsFresh-same s _ refl refl v)
  accepted-IsFresh b s Accepted.failed listening e v small =
      rw (listening, e) (IsFresh-same s _ refl refl v)
  accepted-IsFresh b s (Accepted.socket n) listening e v small =
      settled (accept_client-Settles b n s listening e)
    where
      settled : Settles s n (accept_client b s) → IsFresh (accept_client b s).1
      settled (inl d) = Seated-IsFresh s n (accept_client b s) v small d
      settled (inr d) =
          IsFresh-same s (accept_client b s).1 (ap (λ sv. sv.clients) d.server) d.next v

  -- While the counter is below 2^31, accepting a client, or failing to, keeps the identifiers of
  -- the connected clients distinct and handed out by the counter.
  pub accept_client-IsFresh :
      (b : Bool) (s : App Q) → IsFresh s → s.next_id < 2 ^ 31 → IsFresh (accept_client b s).1
  accept_client-IsFresh b s v small = elim (Bool-cases (is_negative s.server.sv_socket)) [
    | inl e ↦ unopened e
    | inr e ↦ accepted-IsFresh b s _ e refl v small
  ]
    where
      unopened : is_negative s.server.sv_socket ≡ true → IsFresh (accept_client b s).1
      unopened e = unfold accept_client monad in rw e v
