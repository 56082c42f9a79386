-- ===== src/Manager/Balance.antt =====
-- Load balancing keeps the counts of the workers within the limit of the program.
use chat_app.Common.{
  ℕ, ◌+◌, ◌≤◌, ◌≡◌, ◌⊎◌, List, [], ◌∷◌, Option, none, some, Outcome, throw, server_full_exception,
}
use chat_app.Kernel.{Kernel}
use chat_app.State.{Worker, App, occupant}
use chat_app.Manager.Pair.{Load, load}

-- What one worker's count may be under a limit: the limit lags behind by one only when it is 0.
abbrev pub FitsOne : ℕ → ℕ → Type 0
FitsOne limit a = (1 ≤ a) × ((a ≤ limit) ⊎ ((limit ≡ 0) × (a ≡ 1)))

-- The same for two workers; the limit is 1 and a worker has two clients only while it catches up.
abbrev pub FitsBoth : ℕ → ℕ → ℕ → Type 0
FitsBoth limit a b =
    (1 ≤ a)
    × (1 ≤ b)
    × (((a ≤ limit) × (b ≤ limit))
        ⊎ ((limit ≡ 0) × (a ≡ 1) × (b ≡ 1))
        ⊎ ((limit ≡ 1) × (a + b ≡ 3)))

-- As many workers are launched as slots are filled, every worker has a client, and the counts fit.
abbrev pub Fits : ℕ → ℕ → List (Option Worker) → Type 0
Fits limit launched (none ∷ none ∷ []) = launched ≡ 0
Fits limit launched (some a ∷ none ∷ []) = (launched ≡ 1) × FitsOne limit a.nr_clients
Fits limit launched (none ∷ some b ∷ []) = (launched ≡ 1) × FitsOne limit b.nr_clients
Fits limit launched (some a ∷ some b ∷ []) =
    (launched ≡ 2) × FitsBoth limit a.nr_clients b.nr_clients
Fits limit launched _ = ⊥

abbrev pub IsBalanced : Load → Type 0
IsBalanced l = (l.limit ≤ 3) × Fits l.limit l.launched l.workers

-- Both workers are launched and have three clients each.
abbrev pub IsFull : Load → Type 0
IsFull l =
    (l.launched ≡ 2) × ((i : ℕ) (w : Worker) → occupant l.workers i ≡ some w → w.nr_clients ≡ 3)

-- What `process_new_client` may leave behind of a balanced state `l`: a balanced state, or the one
-- that the failing call on a full server leaves.
abbrev pub Settled : {Q : Type 0} → Load → Outcome (Unit {0}) × App Q → Type 0
Settled l r =
    IsBalanced (load r.1)
    ⊎ (IsFull l
        × ((r.0 ≡ throw (server_full_exception "Server full, all threads are occupied!\n"))
            × (load r.1 ≡ record l { limit = 4 })))
