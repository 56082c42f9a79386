-- ===== src/Server/Sending.antt =====
-- `send_msg` to a client that is connected, and `receive_msg` from it.
use chat_app.Common.{
  ℕ, ◌≡◌, sym, subst, set, false, ◌∷◌, some, arith, ℤ, is_negative, length, ok, monad,
}
use chat_app.Text.{Bytes}
use chat_app.Frame.{MessageFrame, overlay}
use chat_app.Kernel.{Kernel, Trace, sent, received}
use chat_app.State.{ClientData, App, occupant, os_call, put_client}
use chat_app.Slots.{find_client}
use chat_app.Slots.Lookup.{occupant-set_at, find_client-set}
use chat_app.Server.{send_msg, receive_msg, get_selected_client_fd, get_client_ref}

-- Slot `i` holds client `c`, which is found there, and both sockets are open.
pub record IsSeated {Q : Type 0} (i : ℕ) (c : ClientData Q) (s : App Q) : Type 0 where
  pub here : occupant s.server.clients i ≡ some c
  pub named : find_client c.personal_id s.server.clients ≡ some i
  pub listening : is_negative s.server.sv_socket ≡ false
  pub open_fd : is_negative c.fd ≡ false

-- Sending over the descriptor succeeds.
abbrev pub Sends : ⦃os : Kernel⦄ → ℤ → Type 0
Sends ⦃os⦄ fd = (t : Trace) (text : Bytes) → (n : ℕ) × (os.send_result t fd text ≡ some n)

pub IsSeated-same :
    {Q : Type 0} (i : ℕ) (c : ClientData Q) (s s' : App Q)
    → s'.server ≡ s.server
    → IsSeated i c s
    → IsSeated i c s'
IsSeated-same i c s s' is v = record {
  here = rw is v.here;
  named = rw is v.named;
  listening = rw is v.listening;
  open_fd = v.open_fd;
}

-- A client written back under its own identifier and descriptor is seated there.
pub IsSeated-put :
    {Q : Type 0} (i : ℕ) (c c' : ClientData Q) (s s' : App Q)
    → IsSeated i c s
    → c'.personal_id ≡ c.personal_id
    → c'.fd ≡ c.fd
    → s'.server ≡ put_client i c' s.server
    → IsSeated i c' s'
IsSeated-put i c c' s s' v same same_fd is = record {
  here = rw is (occupant-set_at s.server.clients i (some c') {a = c} v.here);
  named = rw is (
      subst (λ id. find_client id (set s.server.clients i (some c')) ≡ some i) (sym same)
        (find_client-set c.personal_id s.server.clients i c c' v.named v.here same));
  listening = rw is v.listening;
  open_fd = rw same_fd v.open_fd;
}

module _ {Q : Type 0} ⦃os : Kernel⦄ where
  pub send_msg-IsSeated :
      (text : Bytes) (i : ℕ) (c : ClientData Q) (s : App Q)
      → IsSeated i c s
      → Sends c.fd
      → send_msg text c.personal_id s ≡ (ok tt, record s { trace = sent c.fd text ∷ s.trace })
  unfolding send_msg get_selected_client_fd get_client_ref monad os_call
  send_msg-IsSeated text i c s seated sends =
      let (n, e) = sends s.trace text in
      ground (arith, seated.here, seated.named, seated.listening, seated.open_fd, e)

  pub receive_msg-IsSeated :
      (f : MessageFrame) (bytes : Bytes) (i : ℕ) (c : ClientData Q) (s : App Q)
      → IsSeated i c s
      → os.recv_result s.trace c.fd f.msg_len ≡ some bytes
      → receive_msg f c.personal_id s
        ≡ (ok (length bytes, overlay bytes f), record s { trace = received c.fd ∷ s.trace })
  unfolding receive_msg get_selected_client_fd get_client_ref monad os_call
  receive_msg-IsSeated f bytes i c s seated e =
      ground (arith, seated.here, seated.named, seated.listening, seated.open_fd, e)
