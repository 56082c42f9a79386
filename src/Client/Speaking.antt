-- ===== src/Client/Speaking.antt =====
-- The calls of the sending loop of the client keep to the dialogue.
use chat_app.Common.{
  ℕ, ◌≡◌, refl, inl, inr, Bool, true, ◌∷◌, Option, none, some, arith, Bool-cases, pos, monad,
}
use chat_app.Common.Keeps.{Keeps, Keeps-modify, Keeps-catch, Keeps-skip, keeps_rules}
use chat_app.Text.{Bytes, is_empty, bytes_eq}
use chat_app.Message.{ServerMessage, get_concatenated_msg}
use chat_app.Frame.{MessageFrame}
use chat_app.Resources.{quit_msg}
use chat_app.Kernel.{Kernel, Trace, print, read_line}
use chat_app.Epoll.{EpollManager, EpollPair, wait_events, new_epoll, add_monitored_fd}
use chat_app.Client.{Process, os_call, set_msg, set_frame, request_stop, chat_msg, leave_msg}
use chat_app.Client.Calls.{send_msg, on_line, on_input, send_msg_from_stdin}
use chat_app.Client.Dialogue.{
  sends, Said, chats, leaves, Speaks, quiet-Keeps, Speaks-sent, extended,
}

module _ ⦃os : Kernel⦄ (fd : ℕ) (name : Bytes) (b : Bool) where
  wait_events-quiet : (em : EpollManager) (t : Trace) → sends (wait_events em t).1 ≡ sends t
  unfolding wait_events monad
  wait_events-quiet em t = ground arith

  pub wait_events-Keeps : (em : EpollManager) → Keeps (Speaks fd name b) (os_call (wait_events em))
  wait_events-Keeps em = quiet-Keeps fd name b _ (wait_events-quiet em)

  new_epoll-quiet : (t : Trace) → sends (new_epoll t).1 ≡ sends t
  unfolding new_epoll monad
  new_epoll-quiet t = ground arith

  pub new_epoll-Keeps : Keeps (Speaks fd name b) (os_call new_epoll)
  new_epoll-Keeps = quiet-Keeps fd name b _ new_epoll-quiet

  add_monitored_fd-quiet :
      (em : EpollManager) (ep : EpollPair) (t : Trace)
      → sends (add_monitored_fd em ep t).1 ≡ sends t
  unfolding add_monitored_fd monad
  add_monitored_fd-quiet em ep t = ground arith

  pub add_monitored_fd-Keeps :
      (em : EpollManager) (ep : EpollPair)
      → Keeps (Speaks fd name b) (os_call (add_monitored_fd em ep))
  add_monitored_fd-Keeps em ep = quiet-Keeps fd name b _ (add_monitored_fd-quiet em ep)

  pub print-Keeps : (text : Bytes) → Keeps (Speaks fd name b) (os_call (print text))
  print-Keeps text = quiet-Keeps fd name b _ (λ t. refl)

  pub set_msg-Keeps : (m : ServerMessage) → Keeps (Speaks fd name b) (set_msg m)
  set_msg-Keeps m =
      Keeps-modify _
        λ s h. record { named = h.named; connected = h.connected; asked = h.asked; said = h.said }

  pub set_frame-Keeps : (f : MessageFrame) → Keeps (Speaks fd name b) (set_frame f)
  set_frame-Keeps f =
      Keeps-modify _
        λ s h. record { named = h.named; connected = h.connected; asked = h.asked; said = h.said }

  pub request_stop-Keeps : Keeps (Speaks fd name b) request_stop
  request_stop-Keeps =
      Keeps-modify _
        λ s h. record { named = h.named; connected = h.connected; asked = h.asked; said = h.said }

module _ ⦃os : Kernel⦄ (fd : ℕ) (name : Bytes) where
  -- The client says `m` after a change of its message and of its stop.
  says :
      (m : ServerMessage) (stop : Bool) (s : Process)
      → Speaks fd name true s
      → (Said fd name true s.client.init_done s.client.id (sends s.trace)
          → Said fd name true s.client.init_done s.client.id
              ((pos fd, get_concatenated_msg m) ∷ sends s.trace))
      → Speaks fd name true
          (send_msg
            (get_concatenated_msg m)
            (record s { client = record s.client { done = stop }; msg = m })).1
  says m stop s h more =
      Speaks-sent fd name true (get_concatenated_msg m)
        (record s { client = record s.client { done = stop }; msg = m }) h.named h.connected h.asked
        (extended (h.asked refl) more h.said)

  on_line-Keeps : (line : Bytes) → Keeps (Speaks fd name true) (on_line line)
  unfolding monad
  on_line-Keeps line = record {
    at = λ s h. elim (Bool-cases (bytes_eq line quit_msg)) [
      | inl quits ↦ rw quits (
          says (leave_msg s.msg s.client) true s h
            (leaves (leave_msg s.msg s.client) refl h.named refl))
      | inr other ↦ elim (Bool-cases (is_empty line)) [
        | inl empty ↦ rw (other, empty) h
        | inr filled ↦
            rw (other, filled)
              (says (chat_msg s.msg s.client line) s.client.done s h
                (chats (chat_msg s.msg s.client line) refl h.named refl))
      ]
    ];
  }

  on_input-Keeps : (line : Option Bytes) → Keeps (Speaks fd name true) (on_input line)
  on_input-Keeps none = Keeps-skip
  on_input-Keeps (some line) = on_line-Keeps line

  read_line-Keeps : Keeps (Speaks fd name true) (os_call read_line)
  read_line-Keeps = quiet-Keeps fd name true _ (λ t. refl)

  pub send_msg_from_stdin-Keeps : Keeps (Speaks fd name true) send_msg_from_stdin
  unfolding send_msg_from_stdin
  send_msg_from_stdin-Keeps =
      Keeps-catch _ _
        (search (keeps_rules, read_line-Keeps, on_input-Keeps, set_msg-Keeps fd name true))
        (λ _. quiet-Keeps fd name true _ (λ t. refl))
