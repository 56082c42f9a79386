-- ===== src/Resources/Printing.antt =====
-- Colours that come with a message: which ones can be shown.
use chat_app.Common.{
  ℕ, zero, suc, ◌^◌, ◌≤◌, ◌<◌, ◌≡◌, refl, true, List, [], ◌∷◌, none, some, arith, pos, length,
  get_elem?, ok, fault, ◌++◌, append-nil, Bool-cases, inl, inr, if◌then◌else◌, ap,
}
use chat_app.Text.{Bytes, codes, bytes_eq, bytes_eq_refl}
use chat_app.Text.Decimal.{to_string, stoi}
use chat_app.Text.Decimal.RoundTrip.{stoi-to_string}
use chat_app.Message.{ServerMessage}
use chat_app.Resources.{
  Actions, get_action, get_color, color_arr, formatted, stdout_formatted_msg, on_cout,
}

get_elem?-some :
    {A : Type 0} (xs : List A) (k : ℕ) → k < length xs → (a : A) × (get_elem? xs k ≡ some a)
get_elem?-some [] k h = absurd (omega arith)
get_elem?-some (x ∷ xs) zero h = (x, refl)
get_elem?-some (x ∷ xs) (suc k) h = get_elem?-some xs k (omega arith)

pub get_color_total : (k : ℕ) → k ≤ 14 → (col : Bytes) × (get_color (pos k) ≡ ok col)
unfolding get_color
get_color_total k h = let (col, e) = get_elem?-some color_arr k (omega arith) in (col, rw e)

color_at : (k : ℕ) (col : Bytes) → get_elem? color_arr k ≡ some col → get_color (pos k) ≡ ok col
unfolding get_color
color_at k col e = rw e refl

get_elem?-none : {A : Type 0} (xs : List A) (k : ℕ) → length xs ≤ k → get_elem? xs k ≡ none
get_elem?-none [] k h = refl
get_elem?-none (x ∷ xs) zero h = absurd (omega arith)
get_elem?-none (x ∷ xs) (suc k) h = get_elem?-none xs k (omega arith)

get_color_fault : (k : ℕ) → 14 < k → get_color (pos k) ≡ fault
unfolding get_color
get_color_fault k h = rw (get_elem?-none color_arr k (omega arith))

-- `"\033[0m"`, which ends a colour.
abbrev pub color_off : Bytes
color_off = 27 ∷ codes "[0m"

abbrev pub together : List Bytes → Bytes
together [] = []
together (text ∷ texts) = text ++ together texts

-- The pieces of a line on the terminal: the identifier of the sender, unless it is the server, its
-- name and what it says, in colour `col` each, and behind each the colour `own`.
abbrev pub identifier_pieces : ServerMessage → Bytes → Bytes → List Bytes
identifier_pieces msg col own =
    if bytes_eq msg.name (codes "SERVER")
    then []
    else color_off ∷ col ∷ msg.id ∷ codes "-" ∷ color_off ∷ own ∷ []

abbrev pub chat_pieces : ServerMessage → Bytes → Bytes → List Bytes
chat_pieces msg col own =
    color_off ∷ col ∷ msg.name ∷ codes ": " ∷ msg.msg_content ∷ color_off ∷ own ∷ codes "\n" ∷ []

abbrev pub terminal_line : ServerMessage → Bytes → Bytes → Bytes
terminal_line msg col own =
    together (identifier_pieces msg col own) ++ together (chat_pieces msg col own)

formatted-pieces :
    (msg : ServerMessage) (col own : Bytes) → formatted msg col own ≡ terminal_line msg col own
formatted-pieces msg col own = elim (Bool-cases (bytes_eq msg.name (codes "SERVER"))) [
  | inl server ↦ rw server refl
  | inr other ↦ rw (other, append-nil own) refl
]

-- A chat line whose colour is sent as the print of `k` is written to the terminal if `k` is at most
-- 14: the sender's identifier and a dash, which are left out if its name is that of the server, then
-- its name and what it says. Each of the two parts is in colour `k` of the array, which is ended
-- behind it, and followed by the terminal's own colour. A larger `k` is read past the end of the
-- array. The terminal's own colour is at most 14.
pub stdout_formatted_msg-get_color :
    (msg : ServerMessage) (k old : ℕ)
    → msg.action ≡ get_action Actions.unicast_repeated
    → msg.color_id ≡ to_string (pos k)
    → k < 2 ^ 31
    → old ≤ 14
    → (k ≤ 14
        → (col own : Bytes) × (get_elem? color_arr k ≡ some col)
          × (get_elem? color_arr old ≡ some own)
          × (stdout_formatted_msg msg (pos old) ≡ ok (on_cout (terminal_line msg col own))))
      × (14 < k → stdout_formatted_msg msg (pos old) ≡ fault)
unfolding stdout_formatted_msg
stdout_formatted_msg-get_color msg k old chat sent int small = (shown, unknown)
  where
    read : stoi msg.color_id ≡ ok (pos k)
    read = rw sent (stoi-to_string (pos k) int)

    is_chat : bytes_eq msg.action (get_action Actions.unicast_repeated) ≡ true
    is_chat = rw chat (bytes_eq_refl (get_action Actions.unicast_repeated))

    shown :
        k ≤ 14
        → (col own : Bytes) × (get_elem? color_arr k ≡ some col)
          × (get_elem? color_arr old ≡ some own)
          × (stdout_formatted_msg msg (pos old) ≡ ok (on_cout (terminal_line msg col own)))
    shown h =
        let (col, e) = get_elem?-some color_arr k (omega arith) in
        let (own, e') = get_elem?-some color_arr old (omega arith) in
        let c : get_color (pos k) ≡ ok col = color_at k col e in
        let c' : get_color (pos old) ≡ ok own = color_at old own e' in
        (
          col,
          own,
          e,
          e',
          rw (is_chat, read, c, c') (ap (λ out. ok (on_cout out)) (formatted-pieces msg col own)),
        )

    unknown : 14 < k → stdout_formatted_msg msg (pos old) ≡ fault
    unknown h = rw (is_chat, read, get_color_fault k h)
