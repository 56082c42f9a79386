-- ===== src/Manager/Leaving.antt =====
-- A client that leaves its worker: the worker's count, the end of a worker, and the limit.
use chat_app.Common.{
  zero, suc, ◌≡◌, inl, inr, List, [], ◌∷◌, Option, none, some, arith, leb, ◌==◌, false, Bool-cases,
  ℤ, pos, negsuc, length, monad,
}
use chat_app.State.{Worker, App, os_call}
use chat_app.Workers.{max_loop, get_max_and_idx}
use chat_app.Manager.{worker_client_disconnect}
use chat_app.Manager.Pair.{load, with_workers, by_slots}
use chat_app.Manager.Balance.{IsBalanced}
use chat_app.Manager.OneFewer.{Leaves, worker_client_disconnect-Leaves}

module _ {Q : Type 0} (s : App Q) where
  abbrev Left : ℤ → List (Option Worker) → Type 0
  Left i ws = IsBalanced (load (worker_client_disconnect i (with_workers s ws)).1)

  first_leaves :
      (a : Worker)
      → IsBalanced (record (load s) { workers = some a ∷ none ∷ [] })
      → Left (pos 0) (some a ∷ none ∷ [])
  unfolding worker_client_disconnect get_max_and_idx max_loop monad os_call
  first_leaves a (le, (one, fits)) =
      let t0 : leb a.nr_clients 0 ≡ false = ground arith in
      elim (Bool-cases (a.nr_clients == 1)) [
        | inl e ↦ rw (t0, e) (omega arith, ground arith)
        | inr e ↦ rw (t0, e) (ground arith)
      ]

  second_leaves :
      (b : Worker)
      → IsBalanced (record (load s) { workers = none ∷ some b ∷ [] })
      → Left (pos 1) (none ∷ some b ∷ [])
  unfolding worker_client_disconnect get_max_and_idx max_loop monad os_call
  second_leaves b (le, (one, fits)) =
      let t0 : leb b.nr_clients 0 ≡ false = ground arith in
      elim (Bool-cases (b.nr_clients == 1)) [
        | inl e ↦ rw (t0, e) (omega arith, ground arith)
        | inr e ↦ rw (t0, e) (ground arith)
      ]

  first_of_two_leaves :
      (a b : Worker)
      → IsBalanced (record (load s) { workers = some a ∷ some b ∷ [] })
      → Left (pos 0) (some a ∷ some b ∷ [])
  unfolding worker_client_disconnect get_max_and_idx max_loop monad os_call
  first_of_two_leaves a b (le, (both, fits)) =
      let t0 : leb a.nr_clients 0 ≡ false = ground arith in
      elim (Bool-cases (a.nr_clients == 1)) [
        | inl e ↦ rw (t0, e) (ground arith)
        | inr e ↦ rw (t0, e) (ground arith)
      ]

  second_of_two_leaves :
      (a b : Worker)
      → IsBalanced (record (load s) { workers = some a ∷ some b ∷ [] })
      → Left (pos 1) (some a ∷ some b ∷ [])
  unfolding worker_client_disconnect get_max_and_idx max_loop monad os_call
  second_of_two_leaves a b (le, (both, fits)) =
      let t0 : leb b.nr_clients 0 ≡ false = ground arith in
      elim (Bool-cases (b.nr_clients == 1)) [
        | inl e ↦ rw (t0, e) (ground arith)
        | inr e ↦ rw (t0, e) (ground arith)
      ]

  slots_leave :
      (i : ℤ) (o o' : Option Worker)
      → IsBalanced (record (load s) { workers = o ∷ o' ∷ [] })
      → Left i (o ∷ o' ∷ [])
  unfolding worker_client_disconnect monad
  slots_leave (negsuc n) o o' v = v
  slots_leave (pos (suc (suc n))) o o' v = ground arith
  slots_leave (pos zero) none o' v = v
  slots_leave (pos zero) (some a) none v = first_leaves a v
  slots_leave (pos zero) (some a) (some b) v = first_of_two_leaves a b v
  slots_leave (pos (suc zero)) o none v = v
  slots_leave (pos (suc zero)) none (some b) v = second_leaves b v
  slots_leave (pos (suc zero)) (some a) (some b) v = second_of_two_leaves a b v

  -- Whatever worker a client is said to leave, the call does not succeed and leaves the whole
  -- state as it was, or the index is that of a worker that runs with at least one client, and then
  -- exactly one client is taken off that worker's count: the worker stays with the rest of its
  -- clients, or, if that was its last, it is joined, its slot is emptied and one thread fewer is
  -- launched; the limit becomes the largest count that is left; and nothing else changes. Either
  -- way the load stays balanced in the sense of `IsBalanced`, which it was before: as many workers
  -- are launched as slots are filled, each has a client, and the counts fit the limit. There are
  -- two slots.
  pub worker_client_disconnect-IsBalanced :
      (i : ℤ)
      → length s.manager.worker_threads ≡ 2
      → IsBalanced (load s)
      → IsBalanced (load (worker_client_disconnect i s).1) × Leaves s i
  worker_client_disconnect-IsBalanced i two v = (kept v, worker_client_disconnect-Leaves s i)
    where
      kept : IsBalanced (load s) → IsBalanced (load (worker_client_disconnect i s).1)
      kept =
          by_slots
            (λ s'. IsBalanced (load s') → IsBalanced (load (worker_client_disconnect i s').1)) s two
            λ o o' e v. slots_leave i o o' v
