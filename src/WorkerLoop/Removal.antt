-- ===== src/WorkerLoop/Removal.antt =====
-- `erase(remove_if(...))` of the worker loop against a plain filter of the list of clients.
use chat_app.Common.{
  ℕ, suc, ◌+◌, ◌≤◌, ◌<◌, ◌≡◌, refl, ap, inl, inr, Bool, true, false, List, [], ◌∷◌, ◌++◌, Option,
  none, some, arith, ℤ, pos, int_eq, length, length-append, ok, monad, All, Bool-cases,
  Option-cases, if◌then◌else◌,
}
use chat_app.Text.{Bytes, codes}
use chat_app.Text.Decimal.{to_string}
use chat_app.Message.{ServerMessage, get_concatenated_msg}
use chat_app.Resources.{disconnect_state, queue_size}
use chat_app.Kernel.{Kernel}
use chat_app.Queues.{StringQueue}
use chat_app.State.{ClientData, App, occupant, get_state}
use chat_app.Slots.{find_client}
use chat_app.Server.{get_client_ref}
use chat_app.Manager.Pushing.{
  IsAwake, pushed, all_pushed, waiting, waiting-pushed, waiting-all_pushed, worker_push-pushed,
}
use chat_app.WorkerLoop.{Served, leave_msg, served_data, signal_disconnect, remove_disconnected}

module _ {Q : Type 0} where
  -- The data of a client that a worker serves.
  abbrev pub client_of : List (Option (ClientData Q)) → Served → Option (ClientData Q)
  client_of table client = elim (find_client client.1 table) [
    | none ↦ none
    | some i ↦ occupant table i
  ]

  abbrev pub has_left : Option (ClientData Q) → Bool
  has_left none = false
  has_left (some c) = int_eq c.init_state disconnect_state

  -- The clients that have not left, in order.
  abbrev pub staying : List (Option (ClientData Q)) → List Served → List Served
  staying table [] = []
  staying table (client ∷ clients) =
      if has_left (client_of table client)
      then staying table clients
      else client ∷ staying table clients

module _ {Q : Type 0} ⦃queue : StringQueue Q⦄ ⦃os : Kernel⦄ where
  -- The report that client `id` of worker `j` has left; the rest is what the message held before.
  abbrev pub report_msg : ServerMessage → ClientData Q → ℕ → ℤ → ServerMessage
  report_msg msg c j id = record {
    thread_number = to_string (pos j);
    action = codes "CL_DISCONNECTED";
    fd = msg.fd;
    id = to_string id;
    name = c.name;
    color_id = to_string c.color_id;
    init_done = msg.init_done;
    msg_content = msg.msg_content;
  }

  -- What is reported of a client: nothing unless it has left.
  abbrev pub report : ServerMessage → ℕ → ℤ → Option (ClientData Q) → List Bytes
  report msg j id none = []
  report msg j id (some c) =
      if int_eq c.init_state disconnect_state
      then get_concatenated_msg (report_msg msg c j id) ∷ []
      else []

  abbrev pub reports : ServerMessage → ℕ → List (Option (ClientData Q)) → List Served → List Bytes
  reports msg j table [] = []
  reports msg j table (client ∷ clients) =
      report msg j client.1 (client_of table client) ++ reports msg j table clients

  -- The message that is left in the variable of the loop.
  abbrev pub last_msg :
      ServerMessage → ℕ → List (Option (ClientData Q)) → List Served → ServerMessage
  last_msg msg j table [] = msg
  last_msg msg j table (client ∷ clients) = elim (client_of table client) [
    | none ↦ last_msg msg j table clients
    | some c ↦
        if int_eq c.init_state disconnect_state
        then last_msg (report_msg msg c j client.1) j table clients
        else last_msg msg j table clients
  ]

  -- The variable is reused, but every report overwrites what the one before wrote.
  reports-leave_msg :
      (msg : ServerMessage) (c : ClientData Q) (id : ℤ) (j : ℕ)
      (table : List (Option (ClientData Q))) (clients : List Served)
      → reports (leave_msg msg c j id) j table clients ≡ reports msg j table clients
  reports-leave_msg msg c id j table [] = refl
  reports-leave_msg msg c id j table (client ∷ clients) =
      elim (client_of table client)
        as (λ o.
          report (leave_msg msg c j id) j client.1 o
            ++ reports (leave_msg msg c j id) j table clients
          ≡ report msg j client.1 o ++ reports msg j table clients) [
            | none ↦ reports-leave_msg msg c id j table clients
            | some d ↦
                ap (λ xs. report msg j client.1 (some d) ++ xs)
                  (reports-leave_msg msg c id j table clients)
          ]

  -- Every client that the worker serves is connected.
  abbrev pub AllConnected : List (Option (ClientData Q)) → List Served → Type 0
  AllConnected table = All (λ client. (c : ClientData Q) × (client_of table client ≡ some c))

  served_data-client_of :
      (client : Served) (c : ClientData Q) (s : App Q)
      → client_of s.server.clients client ≡ some c
      → served_data client s ≡ (ok c, s)
  unfolding get_client_ref monad
  served_data-client_of client c s e = elim (Option-cases (find_client client.1 s.server.clients)) [
    | inl missing ↦ ground (arith, missing)
    | inr (i, found) ↦ ground (arith, found)
  ]

  left-signalled :
      (j : ℕ) (evfd : ℤ) (client : Served) (msg : ServerMessage) (c : ClientData Q) (s : App Q)
      → client_of s.server.clients client ≡ some c
      → int_eq c.init_state disconnect_state ≡ true
      → IsAwake evfd
      → length (waiting s) < queue_size
      → signal_disconnect j evfd client msg s ≡ (
        ok (true, leave_msg msg c j client.1),
        pushed evfd (get_concatenated_msg (leave_msg msg c j client.1)) s,
      )
  unfolding get_state monad
  left-signalled j evfd client msg c s e left awake room = ground (
    arith,
    served_data-client_of client c s e,
    worker_push-pushed (leave_msg msg c j client.1) evfd s awake room,
  )

  stays-unsignalled :
      (j : ℕ) (evfd : ℤ) (client : Served) (msg : ServerMessage) (c : ClientData Q) (s : App Q)
      → client_of s.server.clients client ≡ some c
      → int_eq c.init_state disconnect_state ≡ false
      → signal_disconnect j evfd client msg s ≡ (ok (false, msg), s)
  unfolding get_state monad
  stays-unsignalled j evfd client msg c s e stays =
      ground (arith, served_data-client_of client c s e)

  removed :
      (j : ℕ) (evfd : ℤ) (clients : List Served) (msg : ServerMessage) (s : App Q)
      → AllConnected s.server.clients clients
      → IsAwake evfd
      → length (waiting s) + length (reports msg j s.server.clients clients) ≤ queue_size
      → remove_disconnected j evfd clients msg s ≡ (
        ok (staying s.server.clients clients, last_msg msg j s.server.clients clients),
        all_pushed evfd (reports msg j s.server.clients clients) s,
      )
  unfolding remove_disconnected monad
  removed j evfd [] msg s all awake room = refl
  removed j evfd (client ∷ clients) msg s ((c, e), all) awake room =
      let table = s.server.clients in
      elim (Bool-cases (int_eq c.init_state disconnect_state)) [
        | inl left ↦
            let msg1 = leave_msg msg c j client.1 in
            let text = get_concatenated_msg msg1 in
            let shorter : length (waiting s) + suc (length (reports msg j table clients))
                ≤ queue_size =
              rw (e, left) at room in
            let one : length (waiting (pushed evfd text s)) ≡ length (waiting s) + 1 = omega (
              arith,
              ap length (waiting-pushed evfd text s (omega arith)),
              length-append {0} (waiting s) (text ∷ []),
            ) in
            let same = reports-leave_msg msg c client.1 j table clients in
            let rest =
              removed j evfd clients msg1 (pushed evfd text s) all awake
                (omega (arith, ap length same)) in
            ground (
              arith,
              e,
              left,
              same,
              left-signalled j evfd client msg c s e left awake (omega arith),
              rest,
            )
        | inr stays ↦
            let shorter : length (waiting s) + length (reports msg j table clients) ≤ queue_size =
              rw (e, stays) at room in
            ground (
              arith,
              e,
              stays,
              stays-unsignalled j evfd client msg c s e stays,
              removed j evfd clients msg s all awake shorter,
            )
      ]

  all_pushed-server :
      (evfd : ℤ) (texts : List Bytes) (s : App Q) → (all_pushed evfd texts s).server ≡ s.server
  all_pushed-server evfd [] s = refl
  all_pushed-server evfd (text ∷ texts) s = all_pushed-server evfd texts (pushed evfd text s)

  -- What a worker keeps of its clients is the filter of those that have not left, in order; of
  -- each one that has left, the listener gets one report, with the client's name, identifier and
  -- colour and the worker's number, in the same order, behind what waits for it, and the table of
  -- clients is untouched. The clients are connected, the listener can be signalled, and its queue
  -- has room for the reports.
  pub remove_disconnected-staying :
      (j : ℕ) (evfd : ℤ) (clients : List Served) (msg : ServerMessage) (s : App Q)
      → AllConnected s.server.clients clients
      → IsAwake evfd
      → length (waiting s) + length (reports msg j s.server.clients clients) ≤ queue_size
      → let (r, s') = remove_disconnected j evfd clients msg s in
        (r ≡ ok (staying s.server.clients clients, last_msg msg j s.server.clients clients))
        × (waiting s' ≡ waiting s ++ reports msg j s.server.clients clients)
        × (s'.server ≡ s.server)
  remove_disconnected-staying j evfd clients msg s all awake room =
      let texts = reports msg j s.server.clients clients in
      rw (removed j evfd clients msg s all awake room)
        (refl, waiting-all_pushed evfd texts s room, all_pushed-server evfd texts s)
