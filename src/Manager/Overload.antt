-- ===== src/Manager/Overload.antt =====
-- Where load balancing loses count: after a refused client, and after worker 0 has ended first.
use chat_app.Common.{
  ℕ, suc, ◌<◌, ◌≡◌, refl, ap, ◌∙◌, [], ◌∷◌, Option, some, arith, ltb, ◌==◌, true, false, ℤ, monad,
  length,
}
use chat_app.Kernel.{Kernel}
use chat_app.Queues.{StringQueue}
use chat_app.State.{Worker, App, occupant}
use chat_app.Workers.{min_loop, get_min_and_idx, int_max}
use chat_app.Manager.{process_new_client}
use chat_app.Manager.Pair.{load, with_workers, by_slots, grown, join_first}

module _ {Q : Type 0} ⦃queue : StringQueue Q⦄ ⦃os : Kernel⦄ (s : App Q) (socket id evfd : ℤ) where
  fourth_joins :
      (a b : Worker)
      → s.manager.max_clients_per_thread ≡ 4
      → s.manager.nr_of_launched_threads ≡ 2
      → a.nr_clients ≡ 3
      → b.nr_clients ≡ 3
      → load (process_new_client socket id evfd (with_workers s (some a ∷ some b ∷ []))).1
        ≡ record (load s) { workers = some (record a { nr_clients = 4 }) ∷ some b ∷ [] }
  unfolding process_new_client get_min_and_idx min_loop monad
  fourth_joins a b limit launched ha hb =
      let few : ltb a.nr_clients int_max ≡ true = ground arith in
      let first : ltb b.nr_clients a.nr_clients ≡ false = ground arith in
      let t0 : (s.manager.nr_of_launched_threads == 0) ≡ false = ground arith in
      let lt : ltb a.nr_clients s.manager.max_clients_per_thread ≡ true = ground arith in
      rw (few, first, t0, lt) (join_first s socket id a (some b) ∙ ground arith)

  refused :
      (a b : Worker)
      → s.manager.max_clients_per_thread ≡ 3
      → s.manager.nr_of_launched_threads ≡ 2
      → a.nr_clients ≡ 3
      → b.nr_clients ≡ 3
      → (process_new_client socket id evfd (with_workers s (some a ∷ some b ∷ []))).1
        ≡ with_workers (grown s) (some a ∷ some b ∷ [])
  unfolding process_new_client get_min_and_idx min_loop monad
  refused a b limit launched ha hb =
      let few : ltb a.nr_clients int_max ≡ true = ground arith in
      let first : ltb b.nr_clients a.nr_clients ≡ false = ground arith in
      let t0 : (s.manager.nr_of_launched_threads == 0) ≡ false = ground arith in
      let t2 : (s.manager.nr_of_launched_threads == 2) ≡ true = ground arith in
      let ge : ltb a.nr_clients s.manager.max_clients_per_thread ≡ false = ground arith in
      let full : ltb 3 (suc s.manager.max_clients_per_thread) ≡ true = ground arith in
      rw (few, first, t0, t2, ge, full)

-- A full server refuses a client but forgets to take the limit back: of the next client, which
-- nobody has room for, worker 0 becomes the fourth. Here both workers have three clients, and
-- `process_new_client` is called twice.
pub process_new_client_overloads :
    {Q : Type 0} ⦃queue : StringQueue Q⦄ ⦃os : Kernel⦄ (s : App Q) (socket id socket' id' evfd : ℤ)
    → length s.manager.worker_threads ≡ 2
    → s.manager.max_clients_per_thread ≡ 3
    → s.manager.nr_of_launched_threads ≡ 2
    → ((i : ℕ)
        → i < 2
        → (w : Worker) × (occupant s.manager.worker_threads i ≡ some w) × (w.nr_clients ≡ 3))
    → let s' = (process_new_client socket id evfd s).1 in
      let s'' = (process_new_client socket' id' evfd s').1 in
      (w : Worker) × (occupant s''.manager.worker_threads 0 ≡ some w) × (w.nr_clients ≡ 4)
process_new_client_overloads s socket id socket' id' evfd two limit launched =
    by_slots
      (λ s1.
        ((i : ℕ)
          → i < 2
          → (w : Worker) × (occupant s1.manager.worker_threads i ≡ some w) × (w.nr_clients ≡ 3))
        → (w : Worker) × (occupant
              (process_new_client socket' id' evfd
                (process_new_client socket id evfd s1).1).1.manager.worker_threads
              0
            ≡ some w)
          × (w.nr_clients ≡ 4))
      s two λ o o' e h. twice o o' (h 0 (omega arith)) (h 1 (omega arith))
  where
    twice :
        (o o' : Option Worker)
        → (w : Worker) × (o ≡ some w) × (w.nr_clients ≡ 3)
        → (w : Worker) × (o' ≡ some w) × (w.nr_clients ≡ 3)
        → (w : Worker) × (occupant
              (process_new_client socket' id' evfd
                (process_new_client socket id evfd
                  (with_workers s (o ∷ o' ∷ []))).1).1.manager.worker_threads
              0
            ≡ some w)
          × (w.nr_clients ≡ 4)
    twice o o' (a, ea, ha) (b, eb, hb) =
        rw (ea, eb, refused s socket id evfd a b limit launched ha hb)
          (
            record a { nr_clients = 4 },
            ap (λ l. occupant l.workers 0)
                (fourth_joins (grown s) socket' id' evfd a b (omega arith) launched ha hb),
            refl,
          )
