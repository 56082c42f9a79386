-- ===== src/Workers.antt =====
-- include/Server/ServerThreadManager.h, lines 17 to 54: the array of workers.
pub mod Extremes
pub mod Most
use chat_app.Common.{
  ℕ, suc, ◌-◌, ◌^◌, Bool, true, false, List, [], ◌∷◌, Option, none, some, ltb, if◌then◌else◌,
}
use chat_app.State.{Worker}

unfoldable pub is_worker_arr_empty : List (Option Worker) → Bool
is_worker_arr_empty [] = true
is_worker_arr_empty (none ∷ ws) = is_worker_arr_empty ws
is_worker_arr_empty (some _ ∷ ws) = false

-- `std::numeric_limits<int>::max()`
abbrev pub int_max : ℕ
int_max = 2 ^ 31 - 1

-- The loop of `get_min_and_idx`; no index stands for -1.
unfoldable pub min_loop : List (Option Worker) → ℕ → ℕ → Option ℕ → ℕ × Option ℕ
min_loop [] min idx min_idx = (min, min_idx)
min_loop (none ∷ ws) min idx min_idx = min_loop ws min (suc idx) min_idx
min_loop (some w ∷ ws) min idx min_idx =
    min_loop ws (if ltb w.nr_clients min then w.nr_clients else min) (suc idx)
      (if ltb w.nr_clients min then some idx else min_idx)

unfoldable pub get_min_and_idx : List (Option Worker) → ℕ × Option ℕ
unfolding min_loop
get_min_and_idx arr = min_loop arr int_max 0 none

-- The loop of `get_max_and_idx`.
unfoldable pub max_loop : List (Option Worker) → ℕ → ℕ → Option ℕ → ℕ × Option ℕ
max_loop [] max idx max_idx = (max, max_idx)
max_loop (none ∷ ws) max idx max_idx = max_loop ws max (suc idx) max_idx
max_loop (some w ∷ ws) max idx max_idx =
    max_loop ws (if ltb max w.nr_clients then w.nr_clients else max) (suc idx)
      (if ltb max w.nr_clients then some idx else max_idx)

unfoldable pub get_max_and_idx : List (Option Worker) → ℕ × Option ℕ
unfolding max_loop
get_max_and_idx arr = max_loop arr 0 0 none
