-- ===== src/Client/Answering.antt =====
-- The calls of the receiving loop of the client keep to the dialogue.
use chat_app.Common.{
  ℕ, ◌≡◌, refl, subst, inl, inr, Bool, true, false, ◌∷◌, Option, none, some, Bool-cases,
  if◌then◌else◌, ℤ, M, Outcome, throw, fault, monad, ok, ◌>>=◌, ◌>>◌, skip, lift, bind,
}
use chat_app.Common.Keeps.{
  Keeps, Keeps-bind, Keeps-read, Keeps-catch, Keeps-skip, Keeps-lift, keeps_rules, continued,
}
use chat_app.Text.{Bytes}
use chat_app.Text.Decimal.{stoi}
use chat_app.Message.{ServerMessage, get_concatenated_msg, empty_msg, construct_from_string}
use chat_app.Frame.{c_string}
use chat_app.Resources.{
  Actions, get_color, color_end, endl, Shown, nothing, on_cout, on_cerr, stdout_formatted_msg,
}
use chat_app.Kernel.{Kernel, Trace, printed, write_event, recv}
use chat_app.Client.{Process, os_call, on_client, done_msg, is_action}
use chat_app.Client.Calls.{
  send_msg, update_color, finalize_init, received, receive_msg, server_closed, clear_frame, show,
  on_message, on_received, receive_msg_from_sv,
}
use chat_app.Client.Dialogue.{
  sends, Said, confirms, Speaks, quiet-Keeps, Speaks-sent, extended, Speaks-asked, Speaks-any,
}
use chat_app.Client.Speaking.{set_frame-Keeps, request_stop-Keeps, print-Keeps}

module _ ⦃os : Kernel⦄ (fd : ℕ) (name : Bytes) where
  -- The rest of `finalize_init` once the colour has been read.
  abbrev confirm : ServerMessage → ℤ → M Process (Unit {0})
  confirm msg color_id = do
    update_color color_id
    on_client λ c. record c { id = msg.id; init_done = true }
    send_msg (get_concatenated_msg done_msg)

  coloured :
      (msg : ServerMessage) (color_id : ℤ) (s : Process)
      → Speaks fd name true s
      → s.client.init_done ≡ false
      → (r : Outcome Bytes) → get_color color_id ≡ r
      → Speaks fd name true (confirm msg color_id s).1
  unfolding update_color monad os_call
  coloured msg color_id s h new (ok col) e =
      let client = record s.client { color_id = color_id; id = msg.id; init_done = true } in
      let t : Trace = printed (endl col) ∷ printed (endl color_end) ∷ s.trace in
      let now : Said fd name s.client.init_req false s.client.id (sends s.trace) =
        subst (λ c. Said fd name s.client.init_req c s.client.id (sends s.trace)) new h.said in
      rw e (
        Speaks-sent fd name true (get_concatenated_msg done_msg)
          (record s { client = client; trace = t }) h.named h.connected h.asked
          (extended (h.asked refl) (confirms msg.id) now))
  coloured msg color_id s h new (throw x) e =
      rw e (record { named = h.named; connected = h.connected; asked = h.asked; said = h.said })
  coloured msg color_id s h new fault e =
      rw e (record { named = h.named; connected = h.connected; asked = h.asked; said = h.said })

  confirmed :
      (msg : ServerMessage) (s : Process)
      → Speaks fd name true s
      → s.client.init_done ≡ false
      → (r : Outcome ℤ) → Speaks fd name true (◌>>=◌ (lift r) (confirm msg) s).1
  unfolding monad
  confirmed msg s h new (ok color_id) = coloured msg color_id s h new (get_color color_id) refl
  confirmed msg s h new (throw x) = h
  confirmed msg s h new fault = h

  -- A client that has not confirmed confirms at most once, and takes over the identifier.
  finalize_init-Speaks :
      (msg : ServerMessage) (s : Process)
      → Speaks fd name true s
      → s.client.init_done ≡ false
      → Speaks fd name true (finalize_init msg s).1
  unfolding finalize_init monad
  finalize_init-Speaks msg s h new = elim (Bool-cases (is_action msg Actions.init_req)) [
    | inl asked ↦ rw asked (confirmed msg s h new (stoi msg.color_id))
    | inr other ↦ rw other h
  ]

  clear_frame-Keeps : Keeps (Speaks fd name true) clear_frame
  clear_frame-Keeps = search (keeps_rules, set_frame-Keeps fd name true)

  show-Keeps : (out : Shown) → Keeps (Speaks fd name true) (show out)
  show-Keeps nothing = Keeps-skip
  show-Keeps (on_cout text) = print-Keeps fd name true text
  show-Keeps (on_cerr text) = quiet-Keeps fd name true _ (λ t. refl)

  answered :
      (msg : ServerMessage) (s : Process)
      → Speaks fd name true s
      → (confirmed : Bool) → s.client.init_done ≡ confirmed
      → Speaks fd name true
          (((if confirmed
                then lift (stdout_formatted_msg msg s.client.color_id) >>= show
                else finalize_init msg)
              >> clear_frame)
            s).1
  unfolding monad
  answered msg s h true old =
      (Keeps-bind _ _ (Keeps-bind _ _ (Keeps-lift _) show-Keeps) (λ _. clear_frame-Keeps)).at s h
  answered msg s h false new =
      continued (λ _. clear_frame) (λ _. clear_frame-Keeps) (finalize_init msg s)
        (finalize_init-Speaks msg s h new)

  on_message-Keeps : (msg : ServerMessage) → Keeps (Speaks fd name true) (on_message msg)
  on_message-Keeps msg = Keeps-read _ _ λ s h. answered msg s h s.client.init_done refl

  heard :
      (s : Process)
      → Speaks fd name false s
      → (asked : Bool) → s.client.init_req ≡ asked
      → Speaks fd name false
          ((if asked
              then lift (bind (c_string s.frame.msg) (construct_from_string empty_msg))
                >>= on_message
              else skip)
            s).1
  unfolding monad
  heard s h true has =
      Speaks-any ((Keeps-bind _ _ (Keeps-lift _) on_message-Keeps).at s (Speaks-asked has h))
  heard s h false has = h

  on_received-Keeps : Keeps (Speaks fd name false) on_received
  on_received-Keeps = Keeps-read _ _ λ s h. heard s h s.client.init_req refl

  recv-Keeps : (fd' : ℤ) (n : ℕ) → Keeps (Speaks fd name false) (os_call (recv fd' n))
  recv-Keeps fd' n = quiet-Keeps fd name false _ (λ t. refl)

  received-Keeps :
      (fd' : ℤ) (bytes : Option Bytes) → Keeps (Speaks fd name false) (received fd' bytes)
  received-Keeps fd' none =
      Keeps-bind _ _ (quiet-Keeps fd name false _ (λ t. refl)) (λ blocked. search keeps_rules)
  received-Keeps fd' (some bytes) = search (keeps_rules, set_frame-Keeps fd name false)

  receive_msg-Keeps : Keeps (Speaks fd name false) receive_msg
  unfolding receive_msg
  receive_msg-Keeps = search (keeps_rules, recv-Keeps, received-Keeps)

  write_event-Keeps : (evfd : ℤ) → Keeps (Speaks fd name false) (os_call (write_event evfd))
  write_event-Keeps evfd = quiet-Keeps fd name false _ (λ t. refl)

  server_closed-Keeps : Keeps (Speaks fd name false) server_closed
  server_closed-Keeps =
      Keeps-bind _ _ (request_stop-Keeps fd name false)
        (λ _. search (keeps_rules, write_event-Keeps))

  pub receive_msg_from_sv-Keeps : Keeps (Speaks fd name false) receive_msg_from_sv
  unfolding receive_msg_from_sv
  receive_msg_from_sv-Keeps =
      Keeps-catch _ _
        (search (keeps_rules, receive_msg-Keeps, server_closed-Keeps, on_received-Keeps))
        (λ _. quiet-Keeps fd name false _ (λ t. refl))
