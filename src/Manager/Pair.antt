-- ===== src/Manager/Pair.antt =====
-- The array of workers has two slots, so load balancing is looked at slot by slot: a state given by
-- its parts, and what a call that only sends to a worker leaves alone.
use chat_app.Common.{
  ℕ, suc, ◌≡◌, refl, List, [], ◌∷◌, Option, some, arith, ℤ, length, M, monad, subst, sym,
}
use chat_app.Common.Keeps.{Keeps, keeps_rules, Keeps-modify}
use chat_app.Kernel.{Kernel, Trace}
use chat_app.Queues.{StringQueue}
use chat_app.State.{Worker, App, os_call}
use chat_app.Manager.{assign_client_to_worker, add_and_assign}

-- The part of the state that load balancing decides on.
pub record Load : Type 0 where
  pub limit : ℕ
  pub launched : ℕ
  pub workers : List (Option Worker)

abbrev pub load : {Q : Type 0} → App Q → Load
load s = record {
  limit = s.manager.max_clients_per_thread;
  launched = s.manager.nr_of_launched_threads;
  workers = s.manager.worker_threads;
}

abbrev pub with_workers : {Q : Type 0} → App Q → List (Option Worker) → App Q
with_workers s ws = record s { manager = record s.manager { worker_threads = ws } }

-- The limit after it has grown.
abbrev pub grown : {Q : Type 0} → App Q → App Q
grown s = record s {
  manager = record s.manager { max_clients_per_thread = suc s.manager.max_clients_per_thread };
}

-- What holds of every array of two slots holds of every array of length 2.
pub by_slots :
    {Q : Type 0} (P : App Q → Type 0) (s : App Q)
    → length s.manager.worker_threads ≡ 2
    → ((a b : Option Worker)
        → s.manager.worker_threads ≡ a ∷ b ∷ []
        → P (with_workers s (a ∷ b ∷ [])))
    → P s
by_slots P s two h = split s.manager.worker_threads two refl
  where
    split : (ws : List (Option Worker)) → length ws ≡ 2 → s.manager.worker_threads ≡ ws → P s
    split [] l e = absurd (omega arith)
    split (a ∷ []) l e = absurd (omega arith)
    split (a ∷ b ∷ []) l e = subst (λ ws. P (with_workers s ws)) (sym e) (h a b e)
    split (a ∷ b ∷ c ∷ ws) l e = absurd (omega arith)

module _ {Q : Type 0} ⦃queue : StringQueue Q⦄ ⦃os : Kernel⦄ (l : Load) where
  os_call-load : {A : Type 0} (m : M Trace A) → Keeps {S = App Q} (λ s. load s ≡ l) (os_call m)
  unfolding os_call
  os_call-load m = record { at = λ s h. h }

  assign-Keeps :
      (i : ℕ) (socket id evfd : ℤ)
      → Keeps {S = App Q} (λ s. load s ≡ l) (assign_client_to_worker i socket id evfd)
  unfolding assign_client_to_worker
  assign-Keeps i socket id evfd = search (keeps_rules, os_call-load, Keeps-modify) depth 9

module _ {Q : Type 0} ⦃queue : StringQueue Q⦄ ⦃os : Kernel⦄ (s : App Q) (socket id : ℤ) where
  -- The load once a worker has taken the client.
  abbrev joined_load : List (Option Worker) → Load
  joined_load ws = record (load s) { workers = ws }

  pub join_first :
      (a : Worker) (o : Option Worker)
      → load (add_and_assign 0 socket id (with_workers s (some a ∷ o ∷ []))).1
        ≡ joined_load (some (record a { nr_clients = suc a.nr_clients }) ∷ o ∷ [])
  unfolding monad
  join_first a o =
      (assign-Keeps _ 0 socket id a.evfd).at
        (with_workers s (some (record a { nr_clients = suc a.nr_clients }) ∷ o ∷ [])) refl

  pub join_second :
      (o : Option Worker) (b : Worker)
      → load (add_and_assign 1 socket id (with_workers s (o ∷ some b ∷ []))).1
        ≡ joined_load (o ∷ some (record b { nr_clients = suc b.nr_clients }) ∷ [])
  unfolding monad
  join_second o b =
      (assign-Keeps _ 1 socket id b.evfd).at
        (with_workers s (o ∷ some (record b { nr_clients = suc b.nr_clients }) ∷ [])) refl
