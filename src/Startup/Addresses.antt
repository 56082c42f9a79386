-- ===== src/Startup/Addresses.antt =====
-- Which addresses the two programs start with.
use chat_app.Common.{
  ◌≤◌, ◌≡◌, refl, ◌⊎◌, inl, inr, Bool, true, false, List, [], ◌∷◌, Option, arith, Bool-cases,
}
use chat_app.Text.{Bytes, codes, bytes_eq, bytes_eq_iff}
use chat_app.Resources.{localhost}
use chat_app.Startup.{
  check_argv_1, dots, is_invalid_ipv4, get_sv_addr, run_at, launch_client, client_main,
}

-- What an argument that `check_argv_1` knows is.
known_argument :
    (arg : Bytes) (local_only : Bool)
    → check_argv_1 arg ≡ (true, local_only)
    → ((arg ≡ codes "LOCALHOST") × (local_only ≡ true))
      ⊎ ((arg ≡ codes "LAN") × (local_only ≡ false))
unfolding check_argv_1
known_argument arg local_only e = elim (Bool-cases (bytes_eq arg (codes "LOCALHOST"))) [
  | inl l ↦ inl ((bytes_eq_iff arg (codes "LOCALHOST")).0 l, ground arith)
  | inr l ↦ elim (Bool-cases (bytes_eq arg (codes "LAN"))) [
    | inl m ↦ inr ((bytes_eq_iff arg (codes "LAN")).0 m, ground arith)
    | inr m ↦ absurd (ground arith)
  ]
]

launched :
    (arg : Bytes) (known : Bool × Bool) (pipe : Option (List Bytes)) (addr : Bytes)
    → check_argv_1 arg ≡ known
    → launch_client known pipe ≡ run_at addr
    → (3 ≤ dots addr)
      × (((arg ≡ codes "LOCALHOST") × (addr ≡ localhost))
          ⊎ ((arg ≡ codes "LAN") × (addr ≡ get_sv_addr pipe)))
launched arg (false, b) pipe addr k e = cc
launched arg (true, true) pipe addr k e = ground (arith, known_argument arg true k)
launched arg (true, false) pipe addr k e = elim (Bool-cases (is_invalid_ipv4 (get_sv_addr pipe))) [
  | inl bad ↦ absurd (ground arith)
  | inr good ↦ ground (arith, known_argument arg false k)
]

-- If the client runs at all, it has exactly one argument, and an address with at least three dots:
-- the local one for LOCALHOST, and the one that avahi printed for LAN.
pub client_main-run_at :
    (args : List Bytes) (pipe : Option (List Bytes)) (addr : Bytes)
    → client_main args pipe ≡ run_at addr
    → (3 ≤ dots addr)
      × (((args ≡ codes "LOCALHOST" ∷ []) × (addr ≡ localhost))
          ⊎ ((args ≡ codes "LAN" ∷ []) × (addr ≡ get_sv_addr pipe)))
unfolding client_main
client_main-run_at [] pipe addr e = cc
client_main-run_at (arg ∷ []) pipe addr e =
    let (enough, which) = launched arg (check_argv_1 arg) pipe addr refl e in
    (enough, elim which [ inl (a, b) ↦ inl (rw a refl, b) | inr (a, b) ↦ inr (rw a refl, b) ])
client_main-run_at (arg ∷ x ∷ xs) pipe addr e = cc
