-- ===== src/State.antt =====
-- The objects of the server process: include/Server/Client_Data.h, the members of Server and of
-- ServerThreadManager, the static identifier counter, and the trace of system calls.
pub mod Access
use chat_app.Common.{
  ℕ, zero, suc, Bool, false, List, [], ◌∷◌, Option, none, some, ℤ, negsuc, int_inc, M, set,
  replicate, deref, gets, modify, ◌>>=◌,
}
use chat_app.Text.{Bytes}
use chat_app.Resources.{max_clients, max_nr_of_threads}
use chat_app.Kernel.{Trace}
use chat_app.Queues.{StringQueue}

-- The member `color` is always the white of its initialiser, and is left out.
pub record ClientData (Q : Type 0) : Type 0 where
  pub personal_id : ℤ
  pub fd : ℤ
  pub name : Bytes
  pub color_id : ℤ
  pub init_state : ℤ
  pub send_queue : Q

-- `nr_of_connections` is the 32-bit pattern of an atomic int.
pub record Server (Q : Type 0) : Type 0 where
  pub sv_socket : ℤ
  pub nr_of_connections : ℕ
  pub clients : List (Option (ClientData Q))
  pub done : Bool

-- The tuple of worker_arr_t. The thread itself is in the trace of calls.
pub record Worker : Type 0 where
  pub nr_clients : ℕ
  pub evfd : ℤ

pub record Manager (Q : Type 0) : Type 0 where
  pub max_clients_per_thread : ℕ
  pub nr_of_launched_threads : ℕ
  pub q_worker_to_listener : Q
  pub q_listener_to_worker : Q
  pub worker_threads : List (Option Worker)

-- `next_id` is the 32-bit pattern of the static counter `Client_Data::id`.
pub record App (Q : Type 0) : Type 0 where
  pub server : Server Q
  pub manager : Manager Q
  pub next_id : ℕ
  pub trace : Trace

module _ {Q : Type 0} where
  unfoldable pub inc_state : ClientData Q → ClientData Q
  inc_state c = record c { init_state = int_inc c.init_state }

  unfoldable pub get_state : ClientData Q → ℤ
  get_state c = c.init_state

  unfoldable pub set_state : ClientData Q → ℤ → ClientData Q
  set_state c new_state = record c { init_state = new_state }

  unfoldable pub update_client : ClientData Q → ℤ → Bytes → ℤ → ClientData Q
  update_client c fd name color_id = record c { fd = fd; name = name; color_id = color_id }

-- The object in an array of optionals; `none` where the slot is empty or out of range.
abbrev pub occupant : {A : Type 0} → List (Option A) → ℕ → Option A
occupant [] i = none
occupant (o ∷ os) zero = o
occupant (o ∷ os) (suc i) = occupant os i

-- How many slots hold an object.
abbrev pub occupied : {A : Type 0} → List (Option A) → ℕ
occupied [] = 0
occupied (none ∷ os) = occupied os
occupied (some _ ∷ os) = suc (occupied os)

module _ {Q : Type 0} where
  -- A system call made by the server process.
  unfoldable pub os_call : {A : Type 0} → M Trace A → M (App Q) A
  os_call m s = let (r, t) = m s.trace in (r, record s { trace = t })

  abbrev pub on_server : (Server Q → Server Q) → M (App Q) (Unit {0})
  on_server f = modify λ s. record s { server = f s.server }

  abbrev pub on_manager : (Manager Q → Manager Q) → M (App Q) (Unit {0})
  on_manager f = modify λ s. record s { manager = f s.manager }

  abbrev pub put_client : ℕ → ClientData Q → Server Q → Server Q
  put_client i c sv = record sv { clients = set sv.clients i (some c) }

  -- A reference to an element of `clients`, used: undefined once the element is gone.
  abbrev pub client_at : ℕ → M (App Q) (ClientData Q)
  client_at i = gets (λ s. occupant s.server.clients i) >>= deref

  abbrev pub update_at : ℕ → (ClientData Q → ClientData Q) → M (App Q) (Unit {0})
  update_at i f = client_at i >>= λ c. on_server (put_client i (f c))

module _ {Q : Type 0} ⦃queue : StringQueue Q⦄ where
  abbrev pub new_manager : Manager Q
  new_manager = record {
    max_clients_per_thread = 1;
    nr_of_launched_threads = 0;
    q_worker_to_listener = queue.new_queue;
    q_listener_to_worker = queue.new_queue;
    worker_threads = replicate max_nr_of_threads none;
  }

  -- The members before the constructor's body has run.
  abbrev pub new_server : Server Q
  new_server = record {
    sv_socket = negsuc 0;
    nr_of_connections = 0;
    clients = replicate max_clients none;
    done = false;
  }
