-- ===== src/Room.antt =====
-- What the server promises to its clients, with no table, worker or queue in it: a room in which
-- every member has the texts that wait for it.
pub mod Mailboxes
pub mod Refine
pub mod Messages
pub mod Hearing
pub mod Working
pub mod Listening
use chat_app.Common.{List, [], ◌∷◌, ◌++◌, Option, none, some, if◌then◌else◌, ℤ, int_eq}
use chat_app.Text.{Bytes}
use chat_app.Queues.{StringQueue}
use chat_app.State.{ClientData, App}

-- The texts that wait for each member; who is no member has none.
abbrev pub Room : Type 0
Room = ℤ → Option (List Bytes)

abbrev pub add_text : Bytes → Option (List Bytes) → Option (List Bytes)
add_text text none = none
add_text text (some texts) = some (texts ++ text ∷ [])

-- `id` says something: everybody else hears it.
abbrev pub say : ℤ → Bytes → Room → Room
say id text r k = if int_eq id k then r k else add_text text (r k)

abbrev pub enter : ℤ → Room → Room
enter id r k = if int_eq id k then some [] else r k

abbrev pub leave : ℤ → Room → Room
leave id r k = if int_eq id k then none else r k

abbrev pub heard : Option (List Bytes) → Option (List Bytes)
heard none = none
heard (some texts) = some []

-- `id` hears all that waits for it.
abbrev pub hear : ℤ → Room → Room
hear id r k = if int_eq id k then heard (r k) else r k

module _ {Q : Type 0} ⦃queue : StringQueue Q⦄ where
  abbrev pub mailbox : List (Option (ClientData Q)) → Room
  mailbox [] k = none
  mailbox (none ∷ xs) k = mailbox xs k
  mailbox (some c ∷ xs) k =
      if int_eq c.personal_id k then some (queue.contents c.send_queue) else mailbox xs k

  -- The room that a server stands for.
  abbrev pub room_of : App Q → Room
  room_of s = mailbox s.server.clients
