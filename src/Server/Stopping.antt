-- ===== src/Server/Stopping.antt =====
-- The stop that was once requested stays requested, whatever the table of clients goes through.
use chat_app.Common.{ℕ, ◌≡◌, inl, inr, Bool, true, Option, none, some, ℤ, M}
use chat_app.Common.Keeps.{Keeps, Keeps-modify, keeps_rules}
use chat_app.Kernel.{Kernel, Trace, Accepted}
use chat_app.Queues.{StringQueue}
use chat_app.State.{App, os_call}
use chat_app.Server.{accept_client, disconnect_client, seat, accepted, with_flags}
use chat_app.Server.Disconnect.{disconnect_client-cases}

abbrev pub IsStopped : {Q : Type 0} → App Q → Type 0
IsStopped s = s.server.done ≡ true

module _ {Q : Type 0} where
  Keeps-os_call : {A : Type 0} (m : M Trace A) → Keeps {S = App Q} IsStopped (os_call m)
  unfolding os_call
  Keeps-os_call m = record { at = λ s h. h }

  pub disconnect_client-IsStopped :
      (id : ℤ) (s : App Q) → IsStopped s → IsStopped (disconnect_client id s).1
  disconnect_client-IsStopped id s h = elim (disconnect_client-cases id s) [
    | inl (_, e) ↦ rw e h
    | inr (_, _, _, _, _, e) ↦ rw e h
  ]

module _ {Q : Type 0} ⦃queue : StringQueue Q⦄ ⦃os : Kernel⦄ where
  with_flags-Keeps : (fd : ℤ) (r : Option ℕ) → Keeps {S = App Q} IsStopped (with_flags fd r)
  with_flags-Keeps fd none = search (keeps_rules, Keeps-os_call)
  with_flags-Keeps fd (some flags) = search (keeps_rules, Keeps-os_call) depth 8

  seat-Keeps : (fd : ℤ) (o : Option ℕ) → Keeps {S = App Q} IsStopped (seat fd o)
  seat-Keeps fd none = search (keeps_rules, Keeps-os_call)
  seat-Keeps fd (some i) = search (keeps_rules, Keeps-os_call, Keeps-modify) depth 12

  accepted-Keeps : (b : Bool) (r : Accepted) → Keeps {S = App Q} IsStopped (accepted b r)
  accepted-Keeps b Accepted.again = search keeps_rules
  accepted-Keeps b Accepted.failed = search keeps_rules
  accepted-Keeps b (Accepted.socket n) =
      search (keeps_rules, Keeps-os_call, with_flags-Keeps, seat-Keeps) depth 9

  pub accept_client-IsStopped : (b : Bool) → Keeps {S = App Q} IsStopped (accept_client b)
  unfolding accept_client
  accept_client-IsStopped b = search (keeps_rules, Keeps-os_call, accepted-Keeps)
