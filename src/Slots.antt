-- ===== src/Slots.antt =====
-- The server's array of optional clients: the searches and loops over it in include/Server/Server.h.
pub mod Counts
pub mod Lookup
use chat_app.Common.{ℕ, suc, Bool, List, [], ◌∷◌, Option, none, some, if◌then◌else◌, ℤ, int_eq}
use chat_app.State.{ClientData}

abbrev pub next_slot : Option ℕ → Option ℕ
next_slot none = none
next_slot (some i) = some (suc i)

-- `std::find_if` for an empty slot.
unfoldable pub free_slot {ℓ} : {A : Type ℓ} → List (Option A) → Option ℕ
free_slot [] = none
free_slot (none ∷ os) = some 0
free_slot (some _ ∷ os) = next_slot (free_slot os)

module _ {Q : Type 0} where
  abbrev pub has_id : ℤ → ClientData Q → Bool
  has_id cl_id c = int_eq c.personal_id cl_id

  -- `std::find_if` for a client by its identifier.
  unfoldable pub find_client : ℤ → List (Option (ClientData Q)) → Option ℕ
  find_client cl_id [] = none
  find_client cl_id (none ∷ os) = next_slot (find_client cl_id os)
  find_client cl_id (some c ∷ os) =
      if has_id cl_id c then some 0 else next_slot (find_client cl_id os)

  -- The loop of `disconnect_client`: it resets the first match and returns.
  unfoldable pub reset_client : ℤ → List (Option (ClientData Q)) → List (Option (ClientData Q))
  reset_client cl_id [] = []
  reset_client cl_id (none ∷ os) = none ∷ reset_client cl_id os
  reset_client cl_id (some c ∷ os) =
      if has_id cl_id c then none ∷ os else some c ∷ reset_client cl_id os

  unfoldable pub connected_ids : List (Option (ClientData Q)) → List ℤ
  connected_ids [] = []
  connected_ids (none ∷ os) = connected_ids os
  connected_ids (some c ∷ os) = c.personal_id ∷ connected_ids os
