-- ===== src/Manager/Broadcast.antt =====
-- What a message that is repeated to all connected clients does to their queues.
use chat_app.Common.{
  ℕ, suc, ◌<◌, ◌≡◌, refl, sym, ap, ◌∙◌, inl, inr, List, [], ◌∷◌, ◌++◌, Option, none, some, arith,
  if◌then◌else◌, Bool-cases, ℤ, int_eq, length, set, monad, ok, subst, append_assoc,
}
use chat_app.Common.Keeps.{bind_ok}
use chat_app.Text.{Bytes}
use chat_app.Resources.{queue_size}
use chat_app.Kernel.{Kernel}
use chat_app.Queues.{StringQueue}
use chat_app.State.{ClientData, App, occupant, client_at}
use chat_app.Slots.{find_client, connected_ids}
use chat_app.Slots.Lookup.{IsUnique, set_self}
use chat_app.Server.{get_client_ref}
use chat_app.Server.Identifiers.{occupant-set, find_client_unique}
use chat_app.Manager.{unicast_one, unicast_repeated}

occupant-append :
    {A : Type 0} (pre post : List (Option A)) (o : Option A)
    → occupant (pre ++ o ∷ post) (length pre) ≡ o
occupant-append [] post o = refl
occupant-append (p ∷ pre) post o = occupant-append pre post o

set-append :
    {A : Type 0} (pre post : List (Option A)) (o o' : Option A)
    → set (pre ++ o ∷ post) (length pre) o' ≡ pre ++ o' ∷ post
set-append [] post o o' = refl
set-append (p ∷ pre) post o o' = ap (λ xs. p ∷ xs) (set-append pre post o o')

abbrev pub with_clients : {Q : Type 0} → App Q → List (Option (ClientData Q)) → App Q
with_clients s xs = record s { server = record s.server { clients = xs } }

module _ {Q : Type 0} where
  pub set-IsUnique :
      (xs : List (Option (ClientData Q))) (i : ℕ) (c c' : ClientData Q)
      → occupant xs i ≡ some c
      → c'.personal_id ≡ c.personal_id
      → IsUnique xs
      → IsUnique (set xs i (some c'))
  set-IsUnique xs i c c' at same u j k d d' atj atk e = ground (
    arith,
    occupant-set xs i j (some c') {a = d} atj,
    occupant-set xs i k (some c') {a = d'} atk,
    u j k d d',
    u i k c d',
    u j i d c,
  )

module _ {Q : Type 0} ⦃queue : StringQueue Q⦄ (excepted_id : ℤ) (text : Bytes) where
  -- The client with the text at the end of its queue, unless it is the excepted one.
  abbrev pub with_text : ClientData Q → ClientData Q
  with_text c =
      if int_eq excepted_id c.personal_id
      then c
      else record c { send_queue = (queue.try_push c.send_queue text).1 }

  abbrev pub all_with_text : List (Option (ClientData Q)) → List (Option (ClientData Q))
  all_with_text [] = []
  all_with_text (none ∷ xs) = none ∷ all_with_text xs
  all_with_text (some c ∷ xs) = some (with_text c) ∷ all_with_text xs

  -- No queue is full.
  abbrev pub HasRoom : List (Option (ClientData Q)) → Type 0
  HasRoom xs =
      (i : ℕ) (c : ClientData Q)
      → occupant xs i ≡ some c
      → length (queue.contents c.send_queue) < queue_size

module _ {Q : Type 0} ⦃queue : StringQueue Q⦄ ⦃os : Kernel⦄ (excepted_id : ℤ) (text : Bytes) where
  push_here :
      (s : App Q) (i : ℕ) (c : ClientData Q)
      → find_client c.personal_id s.server.clients ≡ some i
      → occupant s.server.clients i ≡ some c
      → length (queue.contents c.send_queue) < queue_size
      → unicast_one excepted_id text c.personal_id s
        ≡ (ok tt, with_clients s (set s.server.clients i (some (with_text excepted_id text c))))
  unfolding get_client_ref monad
  push_here s i c e at room = elim (Bool-cases (int_eq excepted_id c.personal_id)) [
    | inl same ↦
        rw same
          (ap (λ xs. (ok tt, with_clients s xs)) (sym (set_self s.server.clients i (some c) at)))
    | inr other ↦ rw (other, e, at, (queue.push_room c.send_queue text room).0, client_at) (rw at)
  ]

  -- The step for one occupied slot, between the slots done before and the ones to do.
  push_next :
      (s : App Q) (pre post : List (Option (ClientData Q))) (c : ClientData Q)
      → IsUnique (pre ++ some c ∷ post)
      → length (queue.contents c.send_queue) < queue_size
      → unicast_one excepted_id text c.personal_id (with_clients s (pre ++ some c ∷ post))
        ≡ (ok tt, with_clients s (pre ++ some (with_text excepted_id text c) ∷ post))
  push_next s pre post c u room =
      push_here (with_clients s (pre ++ some c ∷ post)) (length pre) c
        (find_client_unique (pre ++ some c ∷ post) (length pre) c u
          (occupant-append pre post (some c)))
        (occupant-append pre post (some c)) room
      ∙ ap (λ xs. (ok tt, with_clients s xs))
          (set-append pre post (some c) (some (with_text excepted_id text c)))

  still-IsUnique :
      (pre post : List (Option (ClientData Q))) (c : ClientData Q)
      → IsUnique (pre ++ some c ∷ post)
      → IsUnique (pre ++ some (with_text excepted_id text c) ∷ post)
  still-IsUnique pre post c u =
      subst IsUnique (set-append pre post (some c) (some (with_text excepted_id text c))) (
        set-IsUnique _ (length pre) c (with_text excepted_id text c)
          (occupant-append pre post (some c)) same u)
    where
      same : (with_text excepted_id text c).personal_id ≡ c.personal_id
      same = elim (Bool-cases (int_eq excepted_id c.personal_id)) [ inl e ↦ rw e | inr e ↦ rw e ]

  rest_done :
      (s : App Q) (pre post : List (Option (ClientData Q)))
      → IsUnique (pre ++ post)
      → HasRoom excepted_id text post
      → unicast_repeated excepted_id (connected_ids post) text (with_clients s (pre ++ post))
        ≡ (ok tt, with_clients s (pre ++ all_with_text excepted_id text post))
  unfolding unicast_repeated connected_ids monad
  rest_done s pre [] u room = refl
  rest_done s pre (none ∷ post) u room =
      rw
        (
          append_assoc pre (none ∷ []) post,
          append_assoc pre (none ∷ []) (all_with_text excepted_id text post),
        )
        at
        (rest_done s (pre ++ none ∷ []) post (rw (append_assoc pre (none ∷ []) post) u)
          (λ i c. room (suc i) c))
  rest_done s pre (some c ∷ post) u room =
      let c' = with_text excepted_id text c in
      let ih : unicast_repeated excepted_id (connected_ids post) text
            (with_clients s (pre ++ some c' ∷ post))
          ≡ (ok tt, with_clients s (pre ++ some c' ∷ all_with_text excepted_id text post)) =
        rw
          (
            append_assoc pre (some c' ∷ []) post,
            append_assoc pre (some c' ∷ []) (all_with_text excepted_id text post),
          )
          at
          (rest_done s (pre ++ some c' ∷ []) post
            (rw (append_assoc pre (some c' ∷ []) post) (still-IsUnique pre post c u))
            (λ i d. room (suc i) d)) in
      bind_ok (unicast_one excepted_id text c.personal_id)
        (unicast_repeated excepted_id (connected_ids post) text) _ _
        (push_next s pre post c u (room 0 c refl))
      ∙ ih

-- A text repeated to all connected clients but the excepted one reaches the end of each one's queue
-- exactly once, changes nothing else, and is not put into the queue of the excepted one. Let no
-- two clients share an identifier, and no queue be full.
pub unicast_repeated-connected_ids :
    {Q : Type 0} ⦃queue : StringQueue Q⦄ ⦃os : Kernel⦄ (excepted_id : ℤ) (text : Bytes) (s : App Q)
    → IsUnique s.server.clients
    → HasRoom excepted_id text s.server.clients
    → (unicast_repeated excepted_id (connected_ids s.server.clients) text s
        ≡ (ok tt, with_clients s (all_with_text excepted_id text s.server.clients)))
      × ((i : ℕ) (c : ClientData Q)
          → occupant s.server.clients i ≡ some c
          → queue.contents (with_text excepted_id text c).send_queue ≡ (
              if int_eq excepted_id c.personal_id
              then queue.contents c.send_queue
              else queue.contents c.send_queue ++ text ∷ []))
unicast_repeated-connected_ids ⦃queue⦄ excepted_id text s u room =
    (rest_done excepted_id text s [] s.server.clients u room, contents)
  where
    contents :
        (i : ℕ) (c : ClientData _)
        → occupant s.server.clients i ≡ some c
        → queue.contents (with_text excepted_id text c).send_queue ≡ (
            if int_eq excepted_id c.personal_id
            then queue.contents c.send_queue
            else queue.contents c.send_queue ++ text ∷ [])
    contents i c at = elim (Bool-cases (int_eq excepted_id c.personal_id)) [
      | inl same ↦ rw same
      | inr other ↦ rw (other, (queue.push_room c.send_queue text (room i c at)).1)
    ]
