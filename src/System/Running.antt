-- ===== src/System/Running.antt =====
-- src/Server/Server_main.cpp from line 74 on: the server is constructed, listens, and runs.
use chat_app.Common.{
  ℕ, ◌≡◌, ◌⊎◌, inl, inr, Bool, true, false, [], ◌∷◌, none, some, arith, Bool-cases, ap, sym, subst,
  Option-cases, pos, minus_one, bit_or, Exception, runtime_error, throw, ok, M, monad, ◌>>◌, ◌>>=◌,
  when, pure,
}
use chat_app.Text.{Bytes}
use chat_app.Resources.{port, max_clients}
use chat_app.Kernel.{Kernel, Trace, socket_opened, option_set, bound_to, listening_on}
use chat_app.Queues.{StringQueue}
use chat_app.State.{App, os_call}
use chat_app.Server.{destroy_server}
use chat_app.Server.Setup.{construct_server, listen_connections}
use chat_app.Listener.{launch_listener_loop}
use chat_app.System.Reach.{started, IsReachable, start}

-- Constants of the socket interface.
abbrev pub af_inet : ℕ
af_inet = 2

abbrev pub sock_stream : ℕ
sock_stream = 1

abbrev pub so_reuseaddr : ℕ
so_reuseaddr = 2

abbrev pub so_reuseport : ℕ
so_reuseport = 15

-- The calls of a set-up that succeeds, the last one first. Of the two options only SO_REUSEPORT
-- is set, since its number contains the bits of the other.
abbrev pub set_up_calls : Bytes → ℕ → Trace
set_up_calls addr n =
    listening_on (pos n) max_clients
    ∷ bound_to (pos n) (some addr) port
    ∷ option_set (pos n) so_reuseport
    ∷ socket_opened af_inet sock_stream 0
    ∷ []

module _ ⦃os : Kernel⦄ where
  -- Some call of the set-up fails, after the calls before it.
  pub data SetUpFails (addr : Bytes) : Type 0 where
    unknown : os.is_address addr ≡ false → SetUpFails addr
    unopened : os.socket_result [] ≡ none → SetUpFails addr
    unset :
        (n : ℕ)
        → os.setsockopt_result (socket_opened af_inet sock_stream 0 ∷ []) (pos n) ≡ false
        → SetUpFails addr
    unbound :
        (n : ℕ)
        → os.bind_result
            (option_set (pos n) so_reuseport ∷ socket_opened af_inet sock_stream 0 ∷ [])
            (pos n)
          ≡ false
        → SetUpFails addr
    deaf :
        (n : ℕ)
        → os.listen_result
            (bound_to (pos n) (some addr) port
              ∷ option_set (pos n) so_reuseport
              ∷ socket_opened af_inet sock_stream 0
              ∷ [])
            (pos n)
          ≡ false
        → SetUpFails addr

module _ {Q : Type 0} ⦃queue : StringQueue Q⦄ ⦃os : Kernel⦄ where
  -- The server before its loop.
  abbrev pub bring_up : Bytes → M (App Q) (Unit {0})
  bring_up addr = do
    construct_server af_inet sock_stream 0 port addr (bit_or so_reuseaddr so_reuseport)
    listen_connections

  unfoldable pub launch_server_loop : ℕ → M (App Q) Bool
  unfolding launch_listener_loop
  launch_server_loop fuel = launch_listener_loop fuel

  -- An exception that leaves the constructor or the loop ends the process; where the loop has
  -- ended, the destructor of the server runs.
  unfoldable pub run_server : ℕ → Bytes → M (App Q) Bool
  unfolding construct_server listen_connections launch_server_loop destroy_server
  run_server fuel addr = do
    bring_up addr
    ended ← launch_server_loop fuel
    when ended destroy_server
    pure ended

  bound_up :
      (addr : Bytes) (n : ℕ)
      → os.is_address addr ≡ true
      → os.socket_result [] ≡ some n
      → ((e : Exception) × SetUpFails addr × ((bring_up addr (started minus_one [])).0 ≡ throw e))
        ⊎ (bring_up addr (started minus_one []) ≡ (ok tt, started (pos n) (set_up_calls addr n)))
  unfolding construct_server listen_connections monad os_call
  bound_up addr n known opens =
      let t1 : Trace = socket_opened af_inet sock_stream 0 ∷ [] in
      let t2 : Trace = option_set (pos n) so_reuseport ∷ t1 in
      let t3 : Trace = bound_to (pos n) (some addr) port ∷ t2 in
      elim (Bool-cases (os.setsockopt_result t1 (pos n))) [
        | inr fails ↦ inl (
          runtime_error "Failed to use setsockopt - Server\n",
          unset n fails,
          ground (arith, known, opens, fails),
        )
        | inl sets ↦ elim (Bool-cases (os.bind_result t2 (pos n))) [
          | inr fails ↦ inl (
            runtime_error "Failed to bind - Server\n",
            unbound n fails,
            ground (arith, known, opens, sets, fails),
          )
          | inl binds ↦ elim (Bool-cases (os.listen_result t3 (pos n))) [
            | inr fails ↦ inl (
              runtime_error "Failed to listen - Server\n",
              deaf n fails,
              ground (arith, known, opens, sets, binds, fails),
            )
            | inl listens ↦ inr (ground (arith, known, opens, sets, binds, listens))
          ]
        ]
      ]

  -- The set-up of the server throws because a call of it fails, or it leaves the server in the
  -- state from which the threads start: an open socket that is bound to the address and listens, an
  -- empty table, and no worker; so what holds of the reachable states holds of the running server.
  -- Of the two options that the code names, only SO_REUSEPORT is set.
  pub bring_up-IsReachable :
      (addr : Bytes)
      → let (r, s) = bring_up addr (started minus_one []) in
        ((e : Exception) × SetUpFails addr × (r ≡ throw e))
        ⊎ ((n : ℕ) × (r ≡ ok tt) × IsReachable s × (s ≡ started (pos n) (set_up_calls addr n)))
  unfolding construct_server monad os_call
  bring_up-IsReachable addr = elim (Bool-cases (os.is_address addr)) [
    | inr fails ↦ inl (
      runtime_error "Failed to load network addr in struct\n",
      unknown fails,
      ground (arith, fails),
    )
    | inl known ↦ elim (Option-cases (os.socket_result [])) [
      | inl fails ↦ inl (
        runtime_error "Failed to open socket - Server\n",
        unopened fails,
        ground (arith, known, fails),
      )
      | inr (n, opens) ↦ elim (bound_up addr n known opens) [
        | inl failed ↦ inl failed
        | inr e ↦ inr (
          n,
          ap (λ r. r.0) e,
          subst (λ r. IsReachable r.1) (sym e) (start (pos n) (set_up_calls addr n)),
          ap (λ r. r.1) e,
        )
      ]
    ]
  ]
