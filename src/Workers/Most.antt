-- ===== src/Workers/Most.antt =====
-- What the search for the largest count returns, as a maximum.
use chat_app.Common.{
  ℕ, suc, ◌≡◌, List, [], ◌∷◌, Option, none, some, arith, ltb, leb, if◌then◌else◌, Bool-cases, inl,
  inr,
}
use chat_app.State.{Worker}
use chat_app.Workers.{max_loop, get_max_and_idx}

abbrev pub larger : ℕ → ℕ → ℕ
larger a b = if leb a b then b else a

-- The largest count of a worker, or 0 if there is no worker.
abbrev pub most : List (Option Worker) → ℕ
most [] = 0
most (none ∷ ws) = most ws
most (some w ∷ ws) = larger w.nr_clients (most ws)

max_loop-larger :
    (ws : List (Option Worker)) (max idx : ℕ) (o : Option ℕ)
    → (max_loop ws max idx o).0 ≡ larger max (most ws)
unfolding max_loop
max_loop-larger [] max idx o = ground arith
max_loop-larger (none ∷ ws) max idx o = max_loop-larger ws max (suc idx) o
max_loop-larger (some w ∷ ws) max idx o = elim (Bool-cases (ltb max w.nr_clients)) [
  | inl lt ↦ ground (arith, lt, max_loop-larger ws w.nr_clients (suc idx) (some idx))
  | inr ge ↦ ground (arith, ge, max_loop-larger ws max (suc idx) o)
]

pub get_max_and_idx-most : (ws : List (Option Worker)) → (get_max_and_idx ws).0 ≡ most ws
unfolding get_max_and_idx
get_max_and_idx-most ws = ground (arith, max_loop-larger ws 0 0 none)
