-- ===== src/Frame.antt =====
-- include/Messages/MessageFrame.h: the buffer into which recv writes.
pub mod Reading
use chat_app.Common.{
  Outcome, ok, fault, bind, ℕ, [], ◌∷◌, ◌++◌, ◌==◌, if◌then◌else◌, length, drop, replicate,
}
use chat_app.Text.{Bytes}
use chat_app.Resources.{max_len}

-- `msg` has `max_len` bytes.
pub record MessageFrame : Type 0 where
  pub msg : Bytes
  pub msg_len : ℕ

abbrev pub clear_msg : MessageFrame → MessageFrame
clear_msg f = record f { msg = replicate max_len 0 }

-- recv overwrites a prefix of the buffer and leaves the rest as it was.
abbrev pub overlay : Bytes → MessageFrame → MessageFrame
overlay received f = record f { msg = received ++ drop (length received) f.msg }

-- `std::string(const char *)`: the bytes before the first zero byte. Where the buffer holds none the
-- read goes on behind it, which is undefined.
abbrev pub c_string : Bytes → Outcome Bytes
c_string [] = fault
c_string (c ∷ s) = if c == 0 then ok [] else bind (c_string s) λ text. ok (c ∷ text)
