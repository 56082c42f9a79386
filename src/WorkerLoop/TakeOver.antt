-- ===== src/WorkerLoop/TakeOver.antt =====
-- How a worker receives a client from the listener: the text of `assign_client_to_worker` against
-- `worker_process_listener_to_worker_q`.
use chat_app.Common.{
  ℕ, ◌^◌, ◌<◌, ◌≡◌, ◌∙◌, List, ◌∷◌, some, none, arith, ◌==◌, if◌then◌else◌, Bool-cases, inl, inr, ℤ,
  pos, M, ok, pure, ◌>>◌, monad, ==_iff,
}
use chat_app.Text.{Bytes, bytes_eq, bytes_eq_iff, bytes_eq_refl}
use chat_app.Text.Decimal.{to_string, IsInt}
use chat_app.Text.Decimal.RoundTrip.{stoi-to_string}
use chat_app.Message.{empty_msg, get_concatenated_msg, construct_from_string}
use chat_app.Message.RoundTrip.{tokens, construct-concatenated}
use chat_app.Message.Numbers.{separations-to_string, to_string_injective}
use chat_app.Kernel.{Kernel, counter, drained}
use chat_app.Epoll.{EpollManager, add_monitored_fd}
use chat_app.Queues.{StringQueue}
use chat_app.State.{App, os_call}
use chat_app.Manager.{accept_msg}
use chat_app.WorkerLoop.{
  Request, take_over, take_request, pop_request, worker_process_listener_to_worker_q,
  pop_listener_to_worker,
}

tokens-accept_msg : (i : ℕ) (socket id : ℤ) → tokens (accept_msg i socket id) ≡ 0
tokens-accept_msg i socket id =
    omega
      (arith, separations-to_string (pos i), separations-to_string socket, separations-to_string id)

construct-accept_msg :
    (i : ℕ) (socket id : ℤ)
    → construct_from_string empty_msg (get_concatenated_msg (accept_msg i socket id))
      ≡ ok (accept_msg i socket id)
construct-accept_msg i socket id =
    construct-concatenated empty_msg (accept_msg i socket id) ∙ rw (tokens-accept_msg i socket id)

same_index :
    (i j : ℕ)
    → i < 2 ^ 31
    → j < 2 ^ 31
    → bytes_eq (to_string (pos i)) (to_string (pos j)) ≡ (i == j)
same_index i j hi hj = elim (Bool-cases (i == j)) [
  | inl e ↦ rw (e, (==_iff i j).0 e) (bytes_eq_refl (to_string (pos j)))
  | inr e ↦ ground (
    arith,
    bytes_eq_iff (to_string (pos i)) (to_string (pos j)),
    to_string_injective (pos i) (pos j) hi hj,
  )
]

module _ {Q : Type 0} ⦃queue : StringQueue Q⦄ ⦃os : Kernel⦄ where
  -- The state in which the request has been taken from the queue.
  abbrev pub after_pop : App Q → ℤ → Q → App Q
  after_pop s evfd q = record s {
    trace = drained evfd ∷ s.trace;
    manager = record s.manager { q_listener_to_worker = q };
  }

  -- The worker monitors the socket, and takes the client over.
  abbrev pub watch_and_serve : EpollManager → ℤ → ℤ → M (App Q) Request
  watch_and_serve em socket id = do
    os_call (add_monitored_fd em (record { fd = socket; event = 5 }))
    pure (some (socket, id))

  take_over-accept :
      (em : EpollManager) (i : ℕ) (socket id : ℤ) (s : App Q)
      → IsInt socket
      → IsInt id
      → take_over em (accept_msg i socket id) s ≡ watch_and_serve em socket id s
  unfolding monad os_call
  take_over-accept em i socket id s hs hid = rw (stoi-to_string socket hs, stoi-to_string id hid)

  take_request-accept :
      (em : EpollManager) (i j : ℕ) (socket id : ℤ) (s : App Q)
      → i < 2 ^ 31
      → j < 2 ^ 31
      → IsInt socket
      → IsInt id
      → take_request em j (get_concatenated_msg (accept_msg i socket id)) s
        ≡ (if i == j then watch_and_serve em socket id s else (ok none, s))
  unfolding monad os_call
  take_request-accept em i j socket id s hi hj hs hid =
      rw (construct-accept_msg i socket id, same_index i j hi hj)
        (elim (Bool-cases (i == j)) [
          | inl e ↦ rw e (take_over-accept em i socket id s hs hid)
          | inr e ↦ rw e
        ])

  pop_request-some :
      (em : EpollManager) (j : ℕ) (text : Bytes) (q : Q) (s : App Q)
      → queue.try_pop s.manager.q_listener_to_worker ≡ some (text, q)
      → pop_request em j s
        ≡ take_request em j text
            (record s { manager = record s.manager { q_listener_to_worker = q } })
  unfolding monad os_call
  pop_request-some em j text q s e = rw (e, pop_request, pop_listener_to_worker)

  -- Worker `j` wakes up to the text that the listener wrote for worker `i`. Let its queue hold that
  -- text first. It takes the text from the queue. If `i` is `j`, it monitors exactly the socket
  -- that was assigned and serves it under the identifier that was assigned; a failing epoll_ctl
  -- throws. If `i` is not `j`, it serves nobody, and the text is gone from the queue.
  pub worker_process-accept :
      (em : EpollManager) (i j : ℕ) (socket id evfd : ℤ) (rest : List Bytes) (s : App Q)
      → i < 2 ^ 31
      → j < 2 ^ 31
      → IsInt socket
      → IsInt id
      → os.read_result s.trace evfd ≡ counter
      → queue.contents s.manager.q_listener_to_worker
        ≡ get_concatenated_msg (accept_msg i socket id) ∷ rest
      → (q : Q) × (queue.contents q ≡ rest)
        × (worker_process_listener_to_worker_q em j evfd s ≡ (
            if i == j
            then watch_and_serve em socket id (after_pop s evfd q)
            else (ok none, after_pop s evfd q)))
  unfolding worker_process_listener_to_worker_q monad os_call
  worker_process-accept em i j socket id evfd rest s hi hj hs hid readable holds =
      let (q, popped, left) = queue.pop_oldest _ _ rest holds in
      (
        q,
        left,
        rw readable (
            pop_request-some em j _ q (record s { trace = drained evfd ∷ s.trace }) popped
            ∙ take_request-accept em i j socket id (after_pop s evfd q) hi hj hs hid),
      )
