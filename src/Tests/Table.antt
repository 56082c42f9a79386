-- ===== src/Tests/Table.antt =====
-- The table of clients, and the workers.
use chat_app.Common.{
  ℕ, zero, suc, ◌≤◌, ◌≡◌, ◌⊎◌, refl, inl, inr, true, List, [], ◌∷◌, Option, none, some, arith, pos,
  ok, throw, runtime_error,
}
use chat_app.Text.{Bytes}
use chat_app.State.{ClientData, Worker, occupant}
use chat_app.Slots.{find_client}
use chat_app.Slots.Lookup.{IsUnique}
use chat_app.Server.{accept_client, disconnect_client}
use chat_app.Server.Identifiers.{IsFresh, accept_client-IsFresh}
use chat_app.Server.Disconnect.{after_disconnect, disconnect_client-cases}
use chat_app.Workers.{get_min_and_idx, get_max_and_idx, int_max}
use chat_app.Workers.Extremes.{FirstLeast, get_min_and_idx-FirstLeast, get_max_and_idx-upper}
use chat_app.Samples.{sample_app, sample_table, list_queue, calm_kernel}

-- The only occupied slots of the sample.
sample_slots :
    (i : ℕ) (c : ClientData (List Bytes))
    → occupant sample_table i ≡ some c
    → ((i ≡ 0) × (c.personal_id ≡ pos 0)) ⊎ ((i ≡ 2) × (c.personal_id ≡ pos 1))
sample_slots zero c e = inl (refl, ground arith)
sample_slots (suc zero) c e = cc
sample_slots (suc (suc zero)) c e = inr (refl, ground arith)
sample_slots (suc (suc (suc zero))) c e = cc
sample_slots (suc (suc (suc (suc zero)))) c e = cc
sample_slots (suc (suc (suc (suc (suc zero))))) c e = cc
sample_slots (suc (suc (suc (suc (suc (suc i)))))) c e = cc

pub sample-IsUnique : IsUnique sample_table
sample-IsUnique i j c d at there same = ground (arith, sample_slots i c at, sample_slots j d there)

pub sample_app-IsFresh : IsFresh sample_app
sample_app-IsFresh = record {
  issued = λ i c at. elim (sample_slots i c at) [
    | inl (_, e) ↦ (0, e, omega arith)
    | inr (_, e) ↦ (1, e, omega arith)
  ];
  unique = sample-IsUnique;
}

accept_client-IsFresh_example : IsFresh (accept_client true sample_app).1
accept_client-IsFresh_example =
    accept_client-IsFresh true sample_app sample_app-IsFresh (omega arith)

disconnect_client-cases_example :
    ((find_client (pos 1) sample_table ≡ none)
      × (disconnect_client (pos 1) sample_app
          ≡ (throw (runtime_error "Client not found\n"), sample_app)))
    ⊎ ((i : ℕ) × (c : ClientData (List Bytes)) × (find_client (pos 1) sample_table ≡ some i)
        × (occupant sample_table i ≡ some c)
        × (c.personal_id ≡ pos 1)
        × (disconnect_client (pos 1) sample_app ≡ (ok tt, after_disconnect i c sample_app)))
disconnect_client-cases_example = disconnect_client-cases (pos 1) sample_app

abbrev crew : List (Option Worker)
crew =
    none
    ∷ some (record { nr_clients = 3; evfd = pos 9 })
    ∷ some (record { nr_clients = 2; evfd = pos 10 })
    ∷ []

get_min_and_idx-FirstLeast_example :
    FirstLeast crew (get_min_and_idx crew).0 (get_min_and_idx crew).1
    ⊎ (((get_min_and_idx crew).1 ≡ none)
        × ((k : ℕ) (v : Worker) → occupant crew k ≡ some v → int_max ≤ v.nr_clients))
get_min_and_idx-FirstLeast_example = get_min_and_idx-FirstLeast crew

get_max_and_idx-upper_example :
    ((k : ℕ) (v : Worker) → occupant crew k ≡ some v → v.nr_clients ≤ (get_max_and_idx crew).0)
    × (((get_max_and_idx crew).0 ≡ 0)
        ⊎ ((k : ℕ) × (v : Worker) × (occupant crew k ≡ some v)
            × (v.nr_clients ≡ (get_max_and_idx crew).0)))
get_max_and_idx-upper_example = get_max_and_idx-upper crew
