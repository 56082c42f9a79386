-- ===== src/Client/Full.antt =====
-- A receive buffer that one read fills: src/Client/Client.cpp, lines 58, 145 and 238.
use chat_app.Common.{
  ◌≡◌, ◌==◌, true, false, some, arith, is_negative, length, fault, ok, monad, ◌∷◌,
}
use chat_app.Text.{Bytes}
use chat_app.Resources.{max_len}
use chat_app.Frame.{overlay, c_string}
use chat_app.Frame.Reading.{HasNoZero, c_string-overlay}
use chat_app.Kernel.{Kernel, received}
use chat_app.Client.{Process, os_call}
use chat_app.Client.Calls.{receive_msg, receive_msg_from_sv}
use chat_app.Client.Setup.{new_process}

module _ ⦃os : Kernel⦄ (s : Process) (text : Bytes) where
  -- The process with the bytes in its frame.
  abbrev with_text : Process
  with_text = record s {
    frame = overlay text s.frame;
    trace = received s.client.cl_socket ∷ s.trace;
  }

  comes_in :
      is_negative s.client.cl_socket ≡ false
      → os.recv_result s.trace s.client.cl_socket s.frame.msg_len ≡ some text
      → receive_msg s ≡ (ok (length text), with_text)
  unfolding receive_msg monad os_call
  comes_in socket comes = ground (arith, socket, comes)

  -- A client that has asked to be initialised asks recv for as many bytes as its frame has, the
  -- length that the process starts with; when the server sends that many, with no zero byte among
  -- them, none ends the text in the frame, and the client reads on behind its end, which is
  -- undefined. The frame has its 512 bytes, and the socket is open.
  pub receive_msg_from_sv_full :
      (first : Bytes)
      → length s.frame.msg ≡ max_len
      → s.frame.msg_len ≡ (new_process first).frame.msg_len
      → s.client.init_req ≡ true
      → is_negative s.client.cl_socket ≡ false
      → os.recv_result s.trace s.client.cl_socket s.frame.msg_len ≡ some text
      → length text ≡ s.frame.msg_len
      → HasNoZero text
      → (receive_msg_from_sv s).0 ≡ fault
  unfolding receive_msg_from_sv monad
  receive_msg_from_sv_full first size asked noted socket comes fills plain =
      let got = comes_in socket comes in
      let some_bytes : (length text == 0) ≡ false = ground (arith, asked, fills) in
      let past : c_string (overlay text s.frame).msg ≡ fault =
        c_string-overlay s.frame text size (ground (arith, fills, asked)) plain in
      ground (arith, got, some_bytes, noted, past)
