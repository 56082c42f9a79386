-- ===== src/Message/RoundTrip.antt =====
-- What `construct_from_string` makes of a text that `get_concatenated_msg` has written.
use chat_app.Common.{
  ℕ, suc, ◌+◌, ◌≡◌, ◌≢◌, refl, [], ◌∷◌, ◌++◌, arith, ◌==◌, if◌then◌else◌, ok, throw, runtime_error,
  All,
}
use chat_app.Text.{Bytes}
use chat_app.Text.Stream.{before-field, past-field}
use chat_app.Message.{
  ServerMessage, split_token, separations, get_concatenated_msg, read_fields, construct_from_string,
}

-- How many split tokens stand inside the fields of a message.
abbrev pub tokens : ServerMessage → ℕ
tokens m =
    separations m.thread_number
    + separations m.action
    + separations m.fd
    + separations m.id
    + separations m.name
    + separations m.color_id
    + separations m.init_done
    + separations m.msg_content

abbrev pub IsClean : Bytes → Type 0
IsClean = All (λ c. c ≢ split_token)

pub separations-append : (s t : Bytes) → separations (s ++ t) ≡ separations s + separations t
separations-append [] t = omega arith
separations-append (c ∷ s) t = ground (arith, separations-append s t)

pub IsClean-of_separations : (s : Bytes) → separations s ≡ 0 → IsClean s
IsClean-of_separations [] h = tt
IsClean-of_separations (c ∷ s) h = ground (arith, IsClean-of_separations s)

pub separations_of_clean : (s : Bytes) → IsClean s → separations s ≡ 0
separations_of_clean [] h = refl
separations_of_clean (c ∷ s) h = ground (arith, separations_of_clean s)

separations_field :
    (s t : Bytes) → separations (s ++ split_token ∷ t) ≡ separations s + suc (separations t)
separations_field s t = separations-append s (split_token ∷ t)

pub separations-concatenated :
    (m : ServerMessage) → separations (get_concatenated_msg m) ≡ 8 + tokens m
unfolding get_concatenated_msg
separations-concatenated m = simp separations_field (omega arith)

read_fields-concatenated :
    (m m' : ServerMessage) → tokens m' ≡ 0 → read_fields m (get_concatenated_msg m') ≡ m'
unfolding get_concatenated_msg read_fields
read_fields-concatenated m m' h =
    let c1 = IsClean-of_separations m'.thread_number (omega arith) in
    let c2 = IsClean-of_separations m'.action (omega arith) in
    let c3 = IsClean-of_separations m'.fd (omega arith) in
    let c4 = IsClean-of_separations m'.id (omega arith) in
    let c5 = IsClean-of_separations m'.name (omega arith) in
    let c6 = IsClean-of_separations m'.color_id (omega arith) in
    let c7 = IsClean-of_separations m'.init_done (omega arith) in
    let c8 = IsClean-of_separations m'.msg_content (omega arith) in
    rw (
      before-field split_token m'.thread_number _ c1,
      past-field split_token m'.thread_number _ c1,
      before-field split_token m'.action _ c2,
      past-field split_token m'.action _ c2,
      before-field split_token m'.fd _ c3,
      past-field split_token m'.fd _ c3,
      before-field split_token m'.id _ c4,
      past-field split_token m'.id _ c4,
      before-field split_token m'.name _ c5,
      past-field split_token m'.name _ c5,
      before-field split_token m'.color_id _ c6,
      past-field split_token m'.color_id _ c6,
      before-field split_token m'.init_done _ c7,
      past-field split_token m'.init_done _ c7,
      before-field split_token m'.msg_content _ c8,
    )

-- A message written to the wire is read back as it was, whatever the receiving record held, if no
-- field contains the split token; if one does, reading throws.
pub construct-concatenated :
    (m m' : ServerMessage)
    → construct_from_string m (get_concatenated_msg m') ≡ (
        if tokens m' == 0
        then ok m'
        else throw (runtime_error "Error in message construction. Invalid Msg format\n"))
unfolding construct_from_string
construct-concatenated m m' =
    ground (arith, separations-concatenated m', read_fields-concatenated m m')
