-- ===== src/Workers/Extremes.antt =====
-- What the two searches over the array of workers find.
use chat_app.Common.{
  ℕ, zero, suc, ◌+◌, ◌≤◌, ◌<◌, ◌≡◌, ◌⊎◌, refl, inl, inr, List, [], ◌∷◌, Option, none, some, arith,
  ltb, Bool-cases, ap, ◌∙◌,
}
use chat_app.State.{Worker, occupant}
use chat_app.Workers.{int_max, min_loop, get_min_and_idx, max_loop, get_max_and_idx}

abbrev Search : Type 0
Search = ℕ × Option ℕ

-- A worker at index `j` of the rest `ws` of the array, of which `idx` elements went before, has the
-- result as its count, less than `min`; the workers before it have more.
record Least (ws : List (Option Worker)) (min idx : ℕ) (r : Search) : Type 0 where
  j : ℕ
  w : Worker
  here : occupant ws j ≡ some w
  count : w.nr_clients ≡ r.0
  index : r.1 ≡ some (idx + j)
  smaller : r.0 < min
  first : (k : ℕ) (v : Worker) → k < j → occupant ws k ≡ some v → r.0 < v.nr_clients

record MinLoop (ws : List (Option Worker)) (min idx : ℕ) (o : Option ℕ) (r : Search) : Type 0 where
  below : r.0 ≤ min
  lower : (k : ℕ) (v : Worker) → occupant ws k ≡ some v → r.0 ≤ v.nr_clients
  picked : (r ≡ (min, o)) ⊎ Least ws min idx r

Least-later :
    (o : Option Worker) (ws : List (Option Worker)) (min min' idx : ℕ) (r : Search)
    → min ≤ min'
    → ((v : Worker) → o ≡ some v → r.0 < min → r.0 < v.nr_clients)
    → Least ws min (suc idx) r
    → Least (o ∷ ws) min' idx r
Least-later o ws min min' idx r le more l = record {
  j = suc l.j;
  w = l.w;
  here = l.here;
  count = l.count;
  index = l.index ∙ ap some (omega arith);
  smaller = omega (arith, l.smaller);
  first = before;
}
  where
    before : (k : ℕ) (v : Worker) → k < suc l.j → occupant (o ∷ ws) k ≡ some v → r.0 < v.nr_clients
    before zero v h e = more v e l.smaller
    before (suc k) v h e = l.first k v (omega arith) e

lower-later :
    (o : Option Worker) (ws : List (Option Worker)) (bound : ℕ)
    → ((v : Worker) → o ≡ some v → bound ≤ v.nr_clients)
    → ((k : ℕ) (v : Worker) → occupant ws k ≡ some v → bound ≤ v.nr_clients)
    → (k : ℕ) (v : Worker) → occupant (o ∷ ws) k ≡ some v
    → bound ≤ v.nr_clients
lower-later o ws bound here later zero v e = here v e
lower-later o ws bound here later (suc k) v e = later k v e

module _ (ws : List (Option Worker)) (min idx : ℕ) (o : Option ℕ) (r : Search) where
  pass_none : MinLoop ws min (suc idx) o r → MinLoop (none ∷ ws) min idx o r
  pass_none h = record {
    below = h.below;
    lower = lower-later none ws r.0 (λ v e. cc) h.lower;
    picked = elim h.picked [
      | inl e ↦ inl e
      | inr l ↦ inr (Least-later none ws min min idx r (omega arith) (λ v e q. cc) l)
    ];
  }

  pass_more :
      (w : Worker)
      → min ≤ w.nr_clients
      → MinLoop ws min (suc idx) o r
      → MinLoop (some w ∷ ws) min idx o r
  pass_more w le h = record {
    below = h.below;
    lower = lower-later (some w) ws r.0 (λ v e. ground (arith, h.below)) h.lower;
    picked = elim h.picked [
      | inl e ↦ inl e
      | inr l ↦ inr (Least-later (some w) ws min min idx r (omega arith) (λ v e q. ground arith) l)
    ];
  }

  take_less :
      (w : Worker)
      → w.nr_clients < min
      → MinLoop ws w.nr_clients (suc idx) (some idx) r
      → MinLoop (some w ∷ ws) min idx o r
  take_less w lt h = record {
    below = omega (arith, h.below);
    lower = lower-later (some w) ws r.0 (λ v e. ground (arith, h.below)) h.lower;
    picked = elim h.picked [
      | inl e ↦ inr (record {
        j = 0;
        w = w;
        here = refl;
        count = ground arith;
        index = ground arith;
        smaller = ground arith;
        first = λ k v q. absurd (omega arith);
      })
      | inr l ↦
          inr
            (Least-later (some w) ws w.nr_clients min idx r (omega arith) (λ v e q. ground arith) l)
    ];
  }

min_loop-MinLoop :
    (ws : List (Option Worker)) (min idx : ℕ) (o : Option ℕ)
    → MinLoop ws min idx o (min_loop ws min idx o)
unfolding min_loop
min_loop-MinLoop [] min idx o = record {
  below = omega arith;
  lower = λ k v e. cc;
  picked = inl refl;
}
min_loop-MinLoop (none ∷ ws) min idx o =
    pass_none ws min idx o _ (min_loop-MinLoop ws min (suc idx) o)
min_loop-MinLoop (some w ∷ ws) min idx o = elim (Bool-cases (ltb w.nr_clients min)) [
  | inl lt ↦ rw lt (
      take_less ws min idx o _ w (ground arith)
        (min_loop-MinLoop ws w.nr_clients (suc idx) (some idx)))
  | inr ge ↦ rw ge (pass_more ws min idx o _ w (ground arith) (min_loop-MinLoop ws min (suc idx) o))
]

-- The first worker with the fewest clients.
pub record FirstLeast (ws : List (Option Worker)) (min : ℕ) (o : Option ℕ) : Type 0 where
  pub index : ℕ
  pub worker : Worker
  pub result : o ≡ some index
  pub here : occupant ws index ≡ some worker
  pub count : worker.nr_clients ≡ min
  pub fewest : (k : ℕ) (v : Worker) → occupant ws k ≡ some v → min ≤ v.nr_clients
  pub first : (k : ℕ) (v : Worker) → k < index → occupant ws k ≡ some v → min < v.nr_clients

-- `get_min_and_idx` returns the index and the count of the first worker that has the fewest
-- clients; it returns no index only if no slot holds a worker with fewer than 2^31 - 1 clients.
pub get_min_and_idx-FirstLeast :
    (ws : List (Option Worker))
    → let (min, o) = get_min_and_idx ws in
      FirstLeast ws min o
      ⊎ ((o ≡ none) × ((k : ℕ) (v : Worker) → occupant ws k ≡ some v → int_max ≤ v.nr_clients))
unfolding get_min_and_idx
get_min_and_idx-FirstLeast ws = elim h.picked [
  | inl e ↦ inr (ground arith, λ k v at. ground (arith, h.lower k v at))
  | inr l ↦ inl (record {
    index = l.j;
    worker = l.w;
    result = l.index ∙ ap some (omega arith);
    here = l.here;
    count = l.count;
    fewest = h.lower;
    first = l.first;
  })
]
  where
    h : MinLoop ws int_max 0 none (min_loop ws int_max 0 none)
    h = min_loop-MinLoop ws int_max 0 none

record MaxLoop (ws : List (Option Worker)) (max r : ℕ) : Type 0 where
  above : max ≤ r
  upper : (k : ℕ) (v : Worker) → occupant ws k ≡ some v → v.nr_clients ≤ r
  attained : (r ≡ max) ⊎ ((k : ℕ) × (v : Worker) × (occupant ws k ≡ some v) × (v.nr_clients ≡ r))

max_none : (ws : List (Option Worker)) (max r : ℕ) → MaxLoop ws max r → MaxLoop (none ∷ ws) max r
max_none ws max r h = record {
  above = h.above;
  upper = elim [ zero ↦ λ v e. cc | suc k ↦ λ v e. h.upper k v e ];
  attained = elim h.attained [ inl e ↦ inl e | inr (k, v, at, e) ↦ inr (suc k, v, at, e) ];
}

max_some :
    (w : Worker) (ws : List (Option Worker)) (max max' r : ℕ)
    → max ≤ max'
    → w.nr_clients ≤ max'
    → (max' ≡ max) ⊎ (max' ≡ w.nr_clients)
    → MaxLoop ws max' r
    → MaxLoop (some w ∷ ws) max r
max_some w ws max max' r le1 le2 which h = record {
  above = omega (arith, h.above);
  upper = elim [ zero ↦ λ v e. ground (arith, h.above) | suc k ↦ λ v e. h.upper k v e ];
  attained = attained which h.attained;
}
  where
    attained :
        (max' ≡ max) ⊎ (max' ≡ w.nr_clients)
        → (r ≡ max') ⊎ ((k : ℕ) × (v : Worker) × (occupant ws k ≡ some v) × (v.nr_clients ≡ r))
        → (r ≡ max)
          ⊎ ((k : ℕ) × (v : Worker) × (occupant (some w ∷ ws) k ≡ some v) × (v.nr_clients ≡ r))
    attained (inl e) (inl q) = inl (q ∙ e)
    attained (inr e) (inl q) = inr (0, w, refl, omega arith)
    attained p (inr (k, v, at, q)) = inr (suc k, v, at, q)

max_loop-MaxLoop :
    (ws : List (Option Worker)) (max idx : ℕ) (o : Option ℕ)
    → MaxLoop ws max (max_loop ws max idx o).0
unfolding max_loop
max_loop-MaxLoop [] max idx o = record {
  above = omega arith;
  upper = λ k v e. cc;
  attained = inl refl;
}
max_loop-MaxLoop (none ∷ ws) max idx o = max_none ws max _ (max_loop-MaxLoop ws max (suc idx) o)
max_loop-MaxLoop (some w ∷ ws) max idx o = elim (Bool-cases (ltb max w.nr_clients)) [
  | inl lt ↦
      rw (lt, max_loop)
        (max_some w ws max w.nr_clients _ (ground arith) (omega arith) (inr refl)
          (max_loop-MaxLoop ws w.nr_clients (suc idx) (some idx)))
  | inr ge ↦
      rw (ge, max_loop)
        (max_some w ws max max _ (omega arith) (ground arith) (inl refl)
          (max_loop-MaxLoop ws max (suc idx) o))
]

-- The count that `get_max_and_idx` returns is an upper bound of the workers' counts, and it is the
-- count of some worker or 0.
pub get_max_and_idx-upper :
    (ws : List (Option Worker))
    → let max = (get_max_and_idx ws).0 in
      ((k : ℕ) (v : Worker) → occupant ws k ≡ some v → v.nr_clients ≤ max)
      × ((max ≡ 0) ⊎ ((k : ℕ) × (v : Worker) × (occupant ws k ≡ some v) × (v.nr_clients ≡ max)))
unfolding get_max_and_idx
get_max_and_idx-upper ws = let h = max_loop-MaxLoop ws 0 0 none in (h.upper, h.attained)
