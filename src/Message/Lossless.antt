-- ===== src/Message/Lossless.antt =====
-- What an accepted text looks like: reading loses nothing but what stands behind the last token.
use chat_app.Common.{ℕ, suc, ◌≡◌, [], ◌∷◌, ◌++◌, arith, true, ok, append_assoc}
use chat_app.Text.{Bytes}
use chat_app.Text.Stream.{before, past}
use chat_app.Message.{
  ServerMessage, split_token, separations, get_concatenated_msg, read_fields, construct_from_string,
}
use chat_app.Message.RoundTrip.{tokens}

-- What the first getline does to a text that holds a token.
pub record Cut (s : Bytes) (k : ℕ) : Type 0 where
  pub text : s ≡ before split_token s ++ split_token ∷ (past split_token s).rest
  pub good : (past split_token s).good ≡ true
  pub left : separations (past split_token s).rest ≡ k
  pub clean : separations (before split_token s) ≡ 0

cut : (s : Bytes) (k : ℕ) → separations s ≡ suc k → Cut s k
cut [] k h = absurd (omega arith)
cut (c ∷ s) k h = ground (arith, cut s k)

abbrev tail_of : Bytes → Bytes
tail_of s = (past split_token s).rest

abbrev head_of : Bytes → Bytes
head_of = before split_token

-- The message whose fields are the eight texts before the first eight tokens.
abbrev cut_fields : Bytes → ServerMessage
cut_fields s0 =
    let s1 = tail_of s0 in
    let s2 = tail_of s1 in
    let s3 = tail_of s2 in
    let s4 = tail_of s3 in
    let s5 = tail_of s4 in
    let s6 = tail_of s5 in
    let s7 = tail_of s6 in
    record {
      thread_number = head_of s0;
      action = head_of s1;
      fd = head_of s2;
      id = head_of s3;
      name = head_of s4;
      color_id = head_of s5;
      init_done = head_of s6;
      msg_content = head_of s7;
    }

module _ (m : ServerMessage) (s0 : Bytes) (h : separations s0 ≡ 8) where
  abbrev s1 : Bytes
  s1 = tail_of s0

  abbrev s2 : Bytes
  s2 = tail_of s1

  abbrev s3 : Bytes
  s3 = tail_of s2

  abbrev s4 : Bytes
  s4 = tail_of s3

  abbrev s5 : Bytes
  s5 = tail_of s4

  abbrev s6 : Bytes
  s6 = tail_of s5

  abbrev s7 : Bytes
  s7 = tail_of s6

  c0 : Cut s0 7
  c0 = cut s0 7 h

  c1 : Cut s1 6
  c1 = cut s1 6 c0.left

  c2 : Cut s2 5
  c2 = cut s2 5 c1.left

  c3 : Cut s3 4
  c3 = cut s3 4 c2.left

  c4 : Cut s4 3
  c4 = cut s4 3 c3.left

  c5 : Cut s5 2
  c5 = cut s5 2 c4.left

  c6 : Cut s6 1
  c6 = cut s6 1 c5.left

  c7 : Cut s7 0
  c7 = cut s7 0 c6.left

  read_fields-cut : read_fields m s0 ≡ cut_fields s0
  unfolding read_fields
  read_fields-cut = rw (c0.good, c1.good, c2.good, c3.good, c4.good, c5.good, c6.good)

  cut_fields_text : s0 ≡ get_concatenated_msg (cut_fields s0) ++ tail_of s7
  unfolding get_concatenated_msg
  cut_fields_text =
      simp append_assoc
        (cc (c0.text, c1.text, c2.text, c3.text, c4.text, c5.text, c6.text, c7.text))

  tokens-cut_fields : tokens (cut_fields s0) ≡ 0
  tokens-cut_fields =
      omega (arith, c0.clean, c1.clean, c2.clean, c3.clean, c4.clean, c5.clean, c6.clean, c7.clean)

-- An accepted text is what `get_concatenated_msg` writes for the message read, and behind it a rest
-- with no split token, which is ignored; no field of the message read contains a split token.
pub construct_lossless :
    (m m' : ServerMessage) (s : Bytes)
    → construct_from_string m s ≡ ok m'
    → (rest : Bytes) × (s ≡ get_concatenated_msg m' ++ rest)
      × (separations rest ≡ 0)
      × (tokens m' ≡ 0)
unfolding construct_from_string
construct_lossless m m' s e =
    let h : separations s ≡ 8 = ground arith in
    let same : m' ≡ cut_fields s = ground (arith, read_fields-cut m s h) in
    rw same (tail_of (s7 m s h), cut_fields_text m s h, (c7 m s h).left, tokens-cut_fields m s h)
