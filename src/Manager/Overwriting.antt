-- ===== src/Manager/Overwriting.antt =====
-- Load balancing after the first worker has ended before the second: the new worker gets the slot
-- of the running one.
use chat_app.Common.{
  ℕ, ◌≤◌, ◌≡◌, refl, true, false, [], ◌∷◌, none, some, arith, ltb, leb, ◌==◌, ℤ, pos, ok, monad,
  subst, sym, ap,
}
use chat_app.Kernel.{Kernel, event_created, spawned, joined}
use chat_app.Queues.{StringQueue}
use chat_app.State.{Worker, App, os_call}
use chat_app.Workers.{get_min_and_idx, min_loop, int_max}
use chat_app.Manager.{process_new_client, emplace_new_worker}
use chat_app.Manager.Pair.{load, with_workers}
use chat_app.Manager.Balance.{IsBalanced}

module _ {Q : Type 0} ⦃queue : StringQueue Q⦄ ⦃os : Kernel⦄ where
  overwritten :
      (b : Worker) (n : ℕ) (socket id evfd : ℤ) (s : App Q)
      → IsBalanced (record (load s) { workers = none ∷ some b ∷ [] })
      → s.manager.max_clients_per_thread ≤ b.nr_clients
      → os.eventfd_result s.trace ≡ some n
      → let (r, s') = process_new_client socket id evfd (with_workers s (none ∷ some b ∷ [])) in
        (r ≡ ok tt)
        × (load s' ≡ record (load s) {
          launched = 2;
          workers = none ∷ some (record { nr_clients = 1; evfd = pos n }) ∷ [];
        })
        × (s'.trace ≡ joined 1 ∷ spawned 1 socket id (pos n) ∷ event_created ∷ s.trace)
  unfolding process_new_client emplace_new_worker get_min_and_idx min_loop monad os_call
  overwritten b n socket id evfd s (le, (one, fits)) full made =
      let few : ltb b.nr_clients int_max ≡ true = ground arith in
      let t0 : (s.manager.nr_of_launched_threads == 0) ≡ false = ground arith in
      let t2 : (s.manager.nr_of_launched_threads == 2) ≡ false = ground arith in
      let u2 : leb 2 s.manager.nr_of_launched_threads ≡ false = ground arith in
      let no_room : ltb b.nr_clients s.manager.max_clients_per_thread ≡ false = ground arith in
      rw (few, t0, t2, u2, no_room, made, one) (refl, refl, refl)

  -- Let only worker 1 run, with as many clients as the limit allows. Then the next client is given
  -- to a new worker in slot 1: the listener waits there for the end of the running worker, whose
  -- clients are no longer counted, and two workers count as launched where one slot is filled, so
  -- the counts are out of balance. They were in balance before, and an event descriptor is made.
  pub process_new_client_overwrites :
      (b : Worker) (n : ℕ) (socket id evfd : ℤ) (s : App Q)
      → s.manager.worker_threads ≡ none ∷ some b ∷ []
      → IsBalanced (load s)
      → s.manager.max_clients_per_thread ≤ b.nr_clients
      → os.eventfd_result s.trace ≡ some n
      → let (r, s') = process_new_client socket id evfd s in
        (load s' ≡ record (load s) {
          launched = 2;
          workers = none ∷ some (record { nr_clients = 1; evfd = pos n }) ∷ [];
        })
        × (s'.trace ≡ joined 1 ∷ spawned 1 socket id (pos n) ∷ event_created ∷ s.trace)
        × (IsBalanced (load s') → ⊥)
  process_new_client_overwrites b n socket id evfd s ws v full made =
      let same : with_workers s (none ∷ some b ∷ []) ≡ s = ap (λ xs. with_workers s xs) (sym ws) in
      let v' : IsBalanced (record (load s) { workers = none ∷ some b ∷ [] }) =
        subst (λ xs. IsBalanced (record (load s) { workers = xs })) ws v in
      let (_, after, calls) = overwritten b n socket id evfd s v' full made in
      subst
        (λ s0.
          let (r, s') = process_new_client socket id evfd s0 in
          (load s' ≡ record (load s) {
            launched = 2;
            workers = none ∷ some (record { nr_clients = 1; evfd = pos n }) ∷ [];
          })
          × (s'.trace ≡ joined 1 ∷ spawned 1 socket id (pos n) ∷ event_created ∷ s.trace)
          × (IsBalanced (load s') → ⊥))
        same (after, calls, λ balanced. omega (arith, (subst IsBalanced after balanced).1))
