-- ===== src/Tests/Frames.antt =====
-- Messages in a receive buffer.
use chat_app.Common.{
  ℕ, zero, suc, ◌<◌, ◌≡◌, refl, arith, length, replicate, ok, fault, bind, [], some, ◌≤◌,
  length-replicate,
}
use chat_app.Message.{empty_msg, get_concatenated_msg, construct_from_string}
use chat_app.Resources.{max_len}
use chat_app.Frame.{MessageFrame, clear_msg, overlay, c_string}
use chat_app.Frame.Reading.{HasNoZero, construct-overlay}
use chat_app.Text.{Bytes}
use chat_app.Kernel.{Kernel}
use chat_app.Client.{Process}
use chat_app.Client.Calls.{receive_msg_from_sv}
use chat_app.Client.Full.{receive_msg_from_sv_full}
use chat_app.Tests.Clients.{asking}
use chat_app.Samples.{request_msg, calm_kernel}

abbrev frame : MessageFrame
frame = record { msg = replicate max_len 120; msg_len = max_len }

request-HasNoZero : HasNoZero (get_concatenated_msg request_msg)
unfolding get_concatenated_msg
request-HasNoZero = ground arith

request_short : length (get_concatenated_msg request_msg) < max_len
unfolding get_concatenated_msg
request_short = omega arith

construct-overlay_example :
    bind
      (c_string (overlay (get_concatenated_msg request_msg) (clear_msg frame)).msg)
      (construct_from_string empty_msg)
    ≡ ok request_msg
construct-overlay_example =
    construct-overlay frame empty_msg request_msg refl request-HasNoZero request_short

replicate-HasNoZero : (n : ℕ) → HasNoZero (replicate n 120)
replicate-HasNoZero zero = tt
replicate-HasNoZero (suc n) = (omega arith, replicate-HasNoZero n)

-- The server sends as many bytes as the client asks for.
abbrev pouring_kernel : Kernel
pouring_kernel = record calm_kernel {
  recv_result = λ t fd n. some (replicate n 120);
  recv_fits = λ t fd n {bytes} e. replicate_fits n bytes e;
}
  where
    replicate_fits :
        (n : ℕ) (bytes : Bytes) → some (replicate n 120) ≡ some bytes → length bytes ≤ n
    replicate_fits n bytes e = ground (arith, length-replicate {A = ℕ} n 120)

abbrev reading : Process
reading = record asking { frame = frame }

receive_msg_from_sv_full_example : (receive_msg_from_sv ⦃os = pouring_kernel⦄ reading).0 ≡ fault
receive_msg_from_sv_full_example =
    receive_msg_from_sv_full ⦃os = pouring_kernel⦄ reading (replicate max_len 120) [] refl refl refl
      refl refl refl (replicate-HasNoZero max_len)
