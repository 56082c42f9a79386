-- ===== src/Slots/Counts.antt =====
-- How the searches and updates of an array of optionals change the number of occupied slots.
use chat_app.Common.{
  ℕ, suc, ◌≤◌, ◌<◌, ◌≡◌, refl, List, [], ◌∷◌, Option, none, some, arith, length, set, ℤ, Bool-cases,
  inl, inr, subst,
}
use chat_app.State.{ClientData, occupant, occupied}
use chat_app.Slots.{next_slot, free_slot, find_client, reset_client, has_id}

pub occupied-le-length : {A : Type 0} (xs : List (Option A)) → occupied xs ≤ length xs
occupied-le-length [] = omega arith
occupied-le-length (none ∷ xs) = omega (arith, occupied-le-length xs)
occupied-le-length (some a ∷ xs) = omega (arith, occupied-le-length xs)

-- A free slot lies in the array and is empty, and filling it raises the count by one.
pub record IsFree {A : Type 0} (xs : List (Option A)) (i : ℕ) : Type 0 where
  pub inside : i < length xs
  pub vacant : occupant xs i ≡ none
  pub fills : (a : A) → occupied (set xs i (some a)) ≡ suc (occupied xs)

IsFree-some :
    {A : Type 0} (xs : List (Option A)) (a : A) (i : ℕ) → IsFree xs i → IsFree (some a ∷ xs) (suc i)
IsFree-some xs a i h = record {
  inside = omega arith;
  vacant = h.vacant;
  fills = λ b. omega (arith, h.fills b);
}

-- Inversion of a search in the rest of an array.
pub next_slot-some :
    (o : Option ℕ) (i : ℕ) → next_slot o ≡ some i → (j : ℕ) × (o ≡ some j) × (suc j ≡ i)
next_slot-some none i e = cc
next_slot-some (some j) i e = (j, refl, cc)

pub free_slot-IsFree :
    {A : Type 0} (xs : List (Option A)) (i : ℕ) → free_slot xs ≡ some i → IsFree xs i
unfolding free_slot
free_slot-IsFree [] i e = cc
free_slot-IsFree (none ∷ xs) i e =
    let first : 0 ≡ i = cc in
    subst (IsFree (none ∷ xs)) first
      (record { inside = omega arith; vacant = refl; fills = λ a. refl })
free_slot-IsFree (some a ∷ xs) i e =
    let (j, found, same) = next_slot-some (free_slot xs) i e in
    subst (IsFree (some a ∷ xs)) same (IsFree-some xs a j (free_slot-IsFree xs j found))

pub free_slot_full :
    {A : Type 0} (xs : List (Option A)) → free_slot xs ≡ none → occupied xs ≡ length xs
unfolding free_slot
free_slot_full [] e = refl
free_slot_full (none ∷ xs) e = cc
free_slot_full (some a ∷ xs) e = ground (arith, free_slot_full xs)

pub length-reset_client :
    {Q : Type 0} (id : ℤ) (xs : List (Option (ClientData Q)))
    → length (reset_client id xs) ≡ length xs
unfolding reset_client
length-reset_client id [] = refl
length-reset_client id (none ∷ xs) = omega (arith, length-reset_client id xs)
length-reset_client id (some c ∷ xs) = ground (arith, length-reset_client id xs)

pub occupied-reset_client :
    {Q : Type 0} (id : ℤ) (xs : List (Option (ClientData Q))) (i : ℕ)
    → find_client id xs ≡ some i
    → suc (occupied (reset_client id xs)) ≡ occupied xs
unfolding reset_client find_client
occupied-reset_client id [] i e = cc
occupied-reset_client id (none ∷ xs) i e =
    let (j, found, _) = next_slot-some (find_client id xs) i e in
    occupied-reset_client id xs j found
occupied-reset_client id (some c ∷ xs) i e = elim (Bool-cases (has_id id c)) [
  | inl hit ↦ rw hit
  | inr miss ↦
      let (j, found, _) = next_slot-some (find_client id xs) i (ground arith) in
      rw miss (omega (arith, occupied-reset_client id xs j found))
]
