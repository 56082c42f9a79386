-- ===== src/Slots/Lookup.antt =====
-- Looking up a client by its identifier, in an array where no two clients share one.
use chat_app.Common.{
  ℕ, zero, suc, refl, ◌≡◌, ◌≢◌, List, [], ◌∷◌, Option, none, some, arith, set, ℤ, int_eq_iff,
  Bool-cases, inl, inr, subst, sym, ap,
}
use chat_app.State.{ClientData, occupant}
use chat_app.Slots.{find_client, reset_client, has_id, next_slot}
use chat_app.Slots.Counts.{next_slot-some}

pub occupant-set_at :
    {A : Type 0} (xs : List (Option A)) (i : ℕ) (v : Option A) {a : A}
    → occupant xs i ≡ some a
    → occupant (set xs i v) i ≡ v
occupant-set_at [] i v e = cc
occupant-set_at (x ∷ xs) zero v e = refl
occupant-set_at (x ∷ xs) (suc i) v e = occupant-set_at xs i v e

pub set_self :
    {A : Type 0} (xs : List (Option A)) (i : ℕ) (o : Option A) → occupant xs i ≡ o → set xs i o ≡ xs
set_self [] i o e = refl
set_self (x ∷ xs) zero o e = cc
set_self (x ∷ xs) (suc i) o e = ap (λ ys. x ∷ ys) (set_self xs i o e)

pub occupant-set_ne :
    {A : Type 0} (xs : List (Option A)) (i j : ℕ) (v : Option A)
    → i ≢ j
    → occupant (set xs j v) i ≡ occupant xs i
occupant-set_ne [] i j v ne = refl
occupant-set_ne (x ∷ xs) zero zero v ne = absurd (ne refl)
occupant-set_ne (x ∷ xs) zero (suc j) v ne = refl
occupant-set_ne (x ∷ xs) (suc i) zero v ne = refl
occupant-set_ne (x ∷ xs) (suc i) (suc j) v ne = occupant-set_ne xs i j v (omega arith)

pub set-set {ℓ} : {A : Type ℓ} (xs : List A) (i : ℕ) (v w : A) → set (set xs i v) i w ≡ set xs i w
set-set [] i v w = refl
set-set (x ∷ xs) zero v w = refl
set-set (x ∷ xs) (suc i) v w = ap (λ ys. x ∷ ys) (set-set xs i v w)

module _ {Q : Type 0} where
  -- Two slots never hold clients with the same identifier.
  abbrev pub IsUnique : List (Option (ClientData Q)) → Type 0
  IsUnique xs =
      (i j : ℕ) (c d : ClientData Q)
      → occupant xs i ≡ some c
      → occupant xs j ≡ some d
      → c.personal_id ≡ d.personal_id
      → i ≡ j

  -- A search that succeeds gives a slot with a client of that identifier.
  pub find_client_sound :
      (id : ℤ) (xs : List (Option (ClientData Q))) (i : ℕ)
      → find_client id xs ≡ some i
      → (c : ClientData Q) × (occupant xs i ≡ some c) × (c.personal_id ≡ id)
  unfolding find_client
  find_client_sound id [] i e = cc
  find_client_sound id (none ∷ xs) i e =
      let (j, found, same) = next_slot-some (find_client id xs) i e in
      let (c, at, has) = find_client_sound id xs j found in
      (c, subst (λ k. occupant (none ∷ xs) k ≡ some c) same at, has)
  find_client_sound id (some c ∷ xs) i e = elim (Bool-cases (has_id id c)) [
    | inl hit ↦ (c, ground arith, (int_eq_iff c.personal_id id).0 hit)
    | inr miss ↦
        let (j, found, same) = next_slot-some (find_client id xs) i (ground arith) in
        let (d, at, has) = find_client_sound id xs j found in
        (d, subst (λ k. occupant (some c ∷ xs) k ≡ some d) same at, has)
  ]

  -- A search fails only if no slot holds a client of that identifier.
  pub find_client-none :
      (id : ℤ) (xs : List (Option (ClientData Q)))
      → find_client id xs ≡ none
      → (i : ℕ) (c : ClientData Q) → occupant xs i ≡ some c
      → c.personal_id ≢ id
  unfolding find_client
  find_client-none id [] e i c at = cc
  find_client-none id (none ∷ xs) e zero c at = cc
  find_client-none id (none ∷ xs) e (suc i) c at = find_client-none id xs (ground arith) i c at
  find_client-none id (some d ∷ xs) e zero c at = ground (arith, int_eq_iff d.personal_id id)
  find_client-none id (some d ∷ xs) e (suc i) c at = find_client-none id xs (ground arith) i c at

  -- The slot found is emptied, and the others stay as they are.
  pub reset_client_lem :
      (id : ℤ) (xs : List (Option (ClientData Q))) (i : ℕ)
      → find_client id xs ≡ some i
      → reset_client id xs ≡ set xs i none
  unfolding reset_client find_client
  reset_client_lem id [] i e = cc
  reset_client_lem id (none ∷ xs) i e =
      let (j, found, same) = next_slot-some (find_client id xs) i e in
      subst (λ k. none ∷ reset_client id xs ≡ set (none ∷ xs) k none) same
        (ap (λ ys. none ∷ ys) (reset_client_lem id xs j found))
  reset_client_lem id (some c ∷ xs) i e = elim (Bool-cases (has_id id c)) [
    | inl hit ↦ ground arith
    | inr miss ↦
        let (j, found, same) = next_slot-some (find_client id xs) i (ground arith) in
        rw miss (
          subst (λ k. some c ∷ reset_client id xs ≡ set (some c ∷ xs) k none) same
            (ap (λ ys. some c ∷ ys) (reset_client_lem id xs j found)))
  ]

  -- Writing back a client under its own identifier changes no search for it.
  pub find_client-set :
      (id : ℤ) (xs : List (Option (ClientData Q))) (i : ℕ) (c c' : ClientData Q)
      → find_client id xs ≡ some i
      → occupant xs i ≡ some c
      → c'.personal_id ≡ c.personal_id
      → find_client id (set xs i (some c')) ≡ some i
  unfolding find_client
  find_client-set id [] i c c' e at same = cc
  find_client-set id (none ∷ xs) i c c' e at same =
      let (j, found, is) = next_slot-some (find_client id xs) i e in
      let at' : occupant xs j ≡ some c = subst (λ k. occupant (none ∷ xs) k ≡ some c) (sym is) at in
      subst (λ k. find_client id (set (none ∷ xs) k (some c')) ≡ some k) is
        (ap next_slot (find_client-set id xs j c c' found at' same))
  find_client-set id (some d ∷ xs) i c c' e at same = elim (Bool-cases (has_id id d)) [
    | inl hit ↦
        let zero_is : i ≡ 0 = ground arith in
        let at' : occupant (some d ∷ xs) 0 ≡ some c =
          subst (λ k. occupant (some d ∷ xs) k ≡ some c) zero_is at in
        subst (λ k. find_client id (set (some d ∷ xs) k (some c')) ≡ some k) (sym zero_is)
          (ground arith)
    | inr miss ↦
        let (j, found, is) = next_slot-some (find_client id xs) i (ground arith) in
        let at' : occupant xs j ≡ some c =
          subst (λ k. occupant (some d ∷ xs) k ≡ some c) (sym is) at in
        subst (λ k. find_client id (set (some d ∷ xs) k (some c')) ≡ some k) is
          (rw miss (ap next_slot (find_client-set id xs j c c' found at' same)))
  ]
