-- ===== src/Manager/Pushing.antt =====
-- `worker_push`: a text from a worker to the listener.
use chat_app.Common.{
  ◌+◌, ◌≤◌, ◌<◌, ◌≡◌, sym, ◌∙◌, true, false, List, [], ◌∷◌, ◌++◌, arith, ℤ, length, is_negative, ok,
  monad, append_assoc, append-nil, length-append, ap,
}
use chat_app.Text.{Bytes}
use chat_app.Message.{ServerMessage, get_concatenated_msg}
use chat_app.Resources.{queue_size}
use chat_app.Kernel.{Kernel, Trace, signalled}
use chat_app.Queues.{StringQueue}
use chat_app.State.{App, os_call}
use chat_app.Manager.{worker_push}

-- The event descriptor of the listener is open, and can be written.
pub record IsAwake ⦃os : Kernel⦄ (evfd : ℤ) : Type 0 where
  pub open_evfd : is_negative evfd ≡ false
  pub writes : (t : Trace) → os.write_result t evfd ≡ true

module _ {Q : Type 0} ⦃queue : StringQueue Q⦄ where
  -- The listener has one text more in its queue, and is signalled.
  abbrev pub pushed : ℤ → Bytes → App Q → App Q
  pushed evfd text s = record s {
    manager = record s.manager {
      q_worker_to_listener = (queue.try_push s.manager.q_worker_to_listener text).1;
    };
    trace = signalled evfd ∷ s.trace;
  }

  abbrev pub all_pushed : ℤ → List Bytes → App Q → App Q
  all_pushed evfd [] s = s
  all_pushed evfd (text ∷ texts) s = all_pushed evfd texts (pushed evfd text s)

  -- What waits for the listener.
  abbrev pub waiting : App Q → List Bytes
  waiting s = queue.contents s.manager.q_worker_to_listener

  pub waiting-pushed :
      (evfd : ℤ) (text : Bytes) (s : App Q)
      → length (waiting s) < queue_size
      → waiting (pushed evfd text s) ≡ waiting s ++ text ∷ []
  waiting-pushed evfd text s room = (queue.push_room s.manager.q_worker_to_listener text room).1

  pub waiting-all_pushed :
      (evfd : ℤ) (texts : List Bytes) (s : App Q)
      → length (waiting s) + length texts ≤ queue_size
      → waiting (all_pushed evfd texts s) ≡ waiting s ++ texts
  waiting-all_pushed evfd [] s room = sym (append-nil (waiting s))
  waiting-all_pushed evfd (text ∷ texts) s room =
      let one : waiting (pushed evfd text s) ≡ waiting s ++ text ∷ [] =
        waiting-pushed evfd text s (omega arith) in
      waiting-all_pushed evfd texts (pushed evfd text s)
        (omega (arith, ap length one, length-append {0} (waiting s) (text ∷ [])))
      ∙ (ap (λ xs. xs ++ texts) one ∙ append_assoc (waiting s) (text ∷ []) texts)

module _ {Q : Type 0} ⦃queue : StringQueue Q⦄ ⦃os : Kernel⦄ where
  pub worker_push-pushed :
      (msg : ServerMessage) (evfd : ℤ) (s : App Q)
      → IsAwake evfd
      → length (queue.contents s.manager.q_worker_to_listener) < queue_size
      → worker_push msg evfd s ≡ (ok tt, pushed evfd (get_concatenated_msg msg) s)
  unfolding worker_push monad os_call
  worker_push-pushed msg evfd s awake room = ground (
    arith,
    awake.open_evfd,
    awake.writes s.trace,
    (queue.push_room s.manager.q_worker_to_listener (get_concatenated_msg msg) room).0,
  )
