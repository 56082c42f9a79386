-- ===== src/Client/Typing.antt =====
-- What a line of the user does.
use chat_app.Common.{
  ℕ, ◌≡◌, inl, inr, true, false, Option, none, some, is_negative, if◌then◌else◌, ok, ◌>>=◌, ◌>>◌,
  gets, catch, monad, arith, Bool-cases, ◌∷◌,
}
use chat_app.Text.{Bytes, bytes_eq, is_empty, codes}
use chat_app.Text.Decimal.{to_string}
use chat_app.Message.{ServerMessage, get_concatenated_msg, reset_msg}
use chat_app.Resources.{quit_msg}
use chat_app.Kernel.{Kernel, sent, line_read}
use chat_app.Client.{Process, os_call, set_msg}
use chat_app.Client.Calls.{on_line, on_input, reported, send_msg, send_msg_from_stdin}

-- A chat line: what the user has typed, with the sender's name, identifier and colour.
abbrev pub line_msg : Process → Bytes → ServerMessage
line_msg s line = record {
  thread_number = s.msg.thread_number;
  action = codes "UNICAST_REPEATED";
  fd = s.msg.fd;
  id = s.client.id;
  name = s.client.name;
  color_id = to_string s.client.color_id;
  init_done = s.msg.init_done;
  msg_content = line;
}

-- The news that the sender leaves, with its name and identifier.
abbrev pub parting_msg : Process → ServerMessage
parting_msg s = record {
  thread_number = s.msg.thread_number;
  action = codes "CL_DISCONNECTED";
  fd = s.msg.fd;
  id = s.client.id;
  name = s.client.name;
  color_id = s.msg.color_id;
  init_done = s.msg.init_done;
  msg_content = s.msg.msg_content;
}

-- The message that a line makes the client send.
abbrev pub message_for : Process → Bytes → ServerMessage
message_for s line = if bytes_eq line (codes "#quit") then parting_msg s else line_msg s line

module _ ⦃os : Kernel⦄ where
  -- The text that a line makes the client send.
  abbrev pub text_for : Process → Bytes → Bytes
  text_for s line = get_concatenated_msg (message_for s line)

  abbrev after_line : Process → Bytes → Process
  after_line s line = record s {
    client = (if bytes_eq line quit_msg then record s.client { done = true } else s.client);
    msg = message_for s line;
    trace = sent s.client.cl_socket (text_for s line) ∷ s.trace;
  }

  on_line-sends :
      (s : Process) (line : Bytes) (n : ℕ)
      → is_empty line ≡ false
      → is_negative s.client.cl_socket ≡ false
      → os.send_result s.trace s.client.cl_socket (text_for s line) ≡ some n
      → on_line line s ≡ (ok tt, after_line s line)
  unfolding send_msg monad os_call
  on_line-sends s line n filled socket sends = elim (Bool-cases (bytes_eq line quit_msg)) [
    | inl quit ↦ let sends' = rw quit at sends in rw (quit, socket, sends')
    | inr chat ↦ let sends' = rw chat at sends in rw (chat, filled, socket, sends')
  ]

  -- What follows once `on_line` is done.
  typed_line :
      (s s' : Process) (line : Bytes) (o : Option Bytes)
      → o ≡ some line
      → on_line line s ≡ (ok tt, s')
      → catch (on_input o >> (gets (λ s''. s''.msg) >>= λ m. set_msg (reset_msg m))) reported s
        ≡ (ok tt, record s' { msg = reset_msg s'.msg })
  unfolding monad
  typed_line s s' line none e done = cc
  typed_line s s' line (some l) e done = ground (arith, done)

  -- A line that is not empty makes the client send one message: a chat line that carries the line as
  -- it was typed, with the name, the identifier and the colour of the client; or, for the quit
  -- message, the news that the client leaves, with its name and identifier. For the quit message the
  -- client also stops. Its socket is open, and sending succeeds.
  pub send_msg_from_stdin-sends :
      (s : Process) (line : Bytes) (n : ℕ)
      → os.line_result s.trace ≡ some line
      → is_empty line ≡ false
      → is_negative s.client.cl_socket ≡ false
      → os.send_result (line_read ∷ s.trace) s.client.cl_socket (text_for s line) ≡ some n
      → send_msg_from_stdin s ≡ (
        ok tt,
        record s {
          client = (if bytes_eq line quit_msg then record s.client { done = true } else s.client);
          msg = reset_msg s.msg;
          trace = sent s.client.cl_socket (text_for s line) ∷ line_read ∷ s.trace;
        },
      )
  unfolding send_msg_from_stdin monad os_call reset_msg
  send_msg_from_stdin-sends s line n typed filled socket sends =
      typed_line (record s { trace = line_read ∷ s.trace }) _ line _ typed
        (on_line-sends (record s { trace = line_read ∷ s.trace }) line n filled socket sends)
