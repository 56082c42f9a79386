-- ===== src/Message.antt =====
-- include/Messages/Server_Message.h: the message record and its wire format.
pub mod RoundTrip
pub mod Lossless
pub mod Numbers
use chat_app.Common.{ℕ, suc, [], ◌∷◌, ◌++◌, ◌==◌, if◌then◌else◌, Outcome, ok, throw, runtime_error}
use chat_app.Text.{Bytes}
use chat_app.Text.Stream.{istringstream, getline}

abbrev pub split_token : ℕ
split_token = b'`'

abbrev pub nr_of_separations : ℕ
nr_of_separations = 8

pub record ServerMessage : Type 0 where
  pub thread_number : Bytes
  pub action : Bytes
  pub fd : Bytes
  pub id : Bytes
  pub name : Bytes
  pub color_id : Bytes
  pub init_done : Bytes
  pub msg_content : Bytes

-- A default-constructed message.
abbrev pub empty_msg : ServerMessage
empty_msg = record {
  thread_number = [];
  action = [];
  fd = [];
  id = [];
  name = [];
  color_id = [];
  init_done = [];
  msg_content = [];
}

-- A field behind which the split token stands.
abbrev pub field_of : Bytes → Bytes → Bytes
field_of field rest = field ++ split_token ∷ rest

unfoldable pub get_concatenated_msg : ServerMessage → Bytes
get_concatenated_msg m = field_of m.thread_number (
    field_of m.action (
      field_of m.fd (
        field_of m.id (
          field_of m.name
            (field_of m.color_id (field_of m.init_done (field_of m.msg_content [])))))))

unfoldable pub reset_msg : ServerMessage → ServerMessage
reset_msg m = record m {
  thread_number = [];
  action = [];
  fd = [];
  id = [];
  name = [];
  color_id = [];
  init_done = [];
  msg_content = [];
}

unfoldable pub init_all_fields :
    ServerMessage → Bytes → Bytes → Bytes → Bytes → Bytes → Bytes → Bytes → Bytes → ServerMessage
init_all_fields m thr_nr action fd id name color init_done msg_content = record m {
  thread_number = thr_nr;
  action = action;
  fd = fd;
  id = id;
  name = name;
  color_id = color;
  init_done = init_done;
  msg_content = msg_content;
}

-- `std::accumulate` over the text: how often the split token occurs.
abbrev pub separations : Bytes → ℕ
separations [] = 0
separations (c ∷ s) = if c == split_token then suc (separations s) else separations s

-- The eight calls of getline, each into its field.
unfoldable pub read_fields : ServerMessage → Bytes → ServerMessage
read_fields m str =
    let (s1, thread_number) = getline split_token (istringstream str) m.thread_number in
    let (s2, action) = getline split_token s1 m.action in
    let (s3, fd) = getline split_token s2 m.fd in
    let (s4, id) = getline split_token s3 m.id in
    let (s5, name) = getline split_token s4 m.name in
    let (s6, color_id) = getline split_token s5 m.color_id in
    let (s7, init_done) = getline split_token s6 m.init_done in
    let (_, msg_content) = getline split_token s7 m.msg_content in
    record m {
      thread_number = thread_number;
      action = action;
      fd = fd;
      id = id;
      name = name;
      color_id = color_id;
      init_done = init_done;
      msg_content = msg_content;
    }

unfoldable pub construct_from_string : ServerMessage → Bytes → Outcome ServerMessage
unfolding read_fields
construct_from_string m str =
    if separations str == nr_of_separations
    then ok (read_fields m str)
    else throw (runtime_error "Error in message construction. Invalid Msg format\n")
