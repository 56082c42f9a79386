-- ===== src/Manager/OneFewer.antt =====
-- What a worker's loss of a client does to the state: its slot, the launched threads, the limit.
use chat_app.Common.{
  ℕ, zero, suc, ◌-◌, ◌<◌, ◌≡◌, ◌≢◌, refl, inl, inr, ◌∷◌, Option, none, some, arith, ltb, leb, true,
  Bool-cases, Option-cases, ℤ, pos, negsuc, length, set, monad, ok,
}
use chat_app.Kernel.{Trace, joined}
use chat_app.State.{Worker, App, occupant, os_call}
use chat_app.Workers.Most.{most, get_max_and_idx-most}
use chat_app.Manager.{worker_client_disconnect}

-- The worker with one client fewer; without its last client it is gone.
abbrev pub with_count : ℕ → Worker → Option Worker
with_count (suc (suc n)) w = some (record { nr_clients = suc n; evfd = w.evfd })
with_count _ w = none

abbrev pub one_fewer : Worker → Option Worker
one_fewer w = with_count w.nr_clients w

-- The launched threads, and the calls, after a worker of this count has lost a client.
abbrev pub launched_after : ℕ → ℕ → ℕ
launched_after (suc (suc n)) launched = launched
launched_after _ launched = launched - 1

abbrev pub calls_after : ℕ → ℕ → Trace → Trace
calls_after (suc (suc n)) t calls = calls
calls_after _ t calls = joined t ∷ calls

-- The state after worker `w` of slot `t` has lost a client.
abbrev pub after_leaving : {Q : Type 0} → ℕ → Worker → App Q → App Q
after_leaving t w s = record s {
  manager = record s.manager {
    worker_threads = set s.manager.worker_threads t (one_fewer w);
    nr_of_launched_threads = launched_after w.nr_clients s.manager.nr_of_launched_threads;
    max_clients_per_thread = most (set s.manager.worker_threads t (one_fewer w));
  };
  trace = calls_after w.nr_clients t s.trace;
}

module _ {Q : Type 0} (s : App Q) where
  -- By the count of the worker.
  losing :
      (n t : ℕ) (w : Worker)
      → w.nr_clients ≡ n
      → t < length s.manager.worker_threads
      → occupant s.manager.worker_threads t ≡ some w
      → 0 < n
      → worker_client_disconnect (pos t) s ≡ (ok tt, after_leaving t w s)
  unfolding worker_client_disconnect monad os_call
  losing zero t w e inside at busy = absurd (omega arith)
  losing (suc zero) t w e inside at busy =
      let in_range : ltb t (length s.manager.worker_threads) ≡ true = ground arith in
      ground (arith, in_range, at, e, get_max_and_idx-most (set s.manager.worker_threads t none))
  losing (suc (suc n)) t w e inside at busy =
      let in_range : ltb t (length s.manager.worker_threads) ≡ true = ground arith in
      let left : Option Worker = some (record { nr_clients = suc n; evfd = w.evfd }) in
      ground (arith, in_range, at, e, get_max_and_idx-most (set s.manager.worker_threads t left))

  pub leaving-eq :
      (t : ℕ) (w : Worker)
      → t < length s.manager.worker_threads
      → occupant s.manager.worker_threads t ≡ some w
      → 0 < w.nr_clients
      → worker_client_disconnect (pos t) s ≡ (ok tt, after_leaving t w s)
  leaving-eq t w = losing w.nr_clients t w refl

  -- The call fails and changes nothing, or it takes one client off the worker that it names.
  pub data Leaves : ℤ → Type 0 where
    refused :
        {i : ℤ}
        → (worker_client_disconnect i s).0 ≢ ok tt
        → (worker_client_disconnect i s).1 ≡ s
        → Leaves i
    leaves :
        (t : ℕ) (w : Worker)
        → occupant s.manager.worker_threads t ≡ some w
        → 0 < w.nr_clients
        → worker_client_disconnect (pos t) s ≡ (ok tt, after_leaving t w s)
        → Leaves (pos t)

  pub worker_client_disconnect-Leaves : (i : ℤ) → Leaves i
  unfolding worker_client_disconnect monad
  worker_client_disconnect-Leaves (negsuc n) = refused (λ e. cc e) refl
  worker_client_disconnect-Leaves (pos t) =
      elim (Bool-cases (ltb t (length s.manager.worker_threads))) [
        | inr out ↦ refused (λ e. ground (arith, out, e)) (ground (arith, out))
        | inl inside ↦ elim (Option-cases (occupant s.manager.worker_threads t)) [
          | inl free ↦ refused (λ e. ground (arith, inside, free, e)) (ground (arith, inside, free))
          | inr (w, at) ↦ elim (Bool-cases (leb w.nr_clients 0)) [
            | inl idle ↦
                refused (λ e. ground (arith, inside, at, idle, e))
                  (ground (arith, inside, at, idle))
            | inr busy ↦
                leaves t w at (ground arith) (leaving-eq t w (ground arith) at (ground arith))
          ]
        ]
      ]
