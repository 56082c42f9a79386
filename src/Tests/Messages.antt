-- ===== src/Tests/Messages.antt =====
-- Numbers, messages and events.
use chat_app.Common.{
  ◌≡◌, ◌↔◌, refl, Bool, true, [], ◌∷◌, ◌++◌, arith, ◌==◌, if◌then◌else◌, pos, negsuc, ok, throw,
  runtime_error,
}
use chat_app.Text.{Bytes, codes}
use chat_app.Text.Decimal.{to_string, stoi}
use chat_app.Text.Decimal.RoundTrip.{stoi-to_string}
use chat_app.Message.{
  ServerMessage, empty_msg, get_concatenated_msg, construct_from_string, read_fields, separations,
}
use chat_app.Message.RoundTrip.{tokens, construct-concatenated}
use chat_app.Message.Lossless.{construct_lossless}
use chat_app.Epoll.{EpollManager, check_event}
use chat_app.Epoll.Reports.{Reported, check_event-Reported}
use chat_app.Samples.{request_msg, calm_kernel}

stoi-to_string_example : stoi (to_string (negsuc 41)) ≡ ok (negsuc 41)
stoi-to_string_example = stoi-to_string (negsuc 41) (omega arith)

construct-concatenated_example :
    construct_from_string empty_msg (get_concatenated_msg request_msg) ≡ (
      if tokens request_msg == 0
      then ok request_msg
      else throw (runtime_error "Error in message construction. Invalid Msg format\n"))
construct-concatenated_example = construct-concatenated empty_msg request_msg

abbrev wire : Bytes
wire = codes "0`A`7`2`````rest"

abbrev wire_msg : ServerMessage
wire_msg = record empty_msg {
  thread_number = codes "0";
  action = codes "A";
  fd = codes "7";
  id = codes "2";
}

read_wire : construct_from_string empty_msg wire ≡ ok wire_msg
unfolding construct_from_string read_fields
read_wire = refl

construct_lossless_example :
    (rest : Bytes) × (wire ≡ get_concatenated_msg wire_msg ++ rest)
    × (separations rest ≡ 0)
    × (tokens wire_msg ≡ 0)
construct_lossless_example = construct_lossless empty_msg wire_msg wire read_wire

abbrev watching : EpollManager
watching = record {
  epfd = pos 3;
  events = record { fd = pos 4; events = 1 } ∷ record { fd = pos 5; events = 4 } ∷ [];
}

check_event-Reported_example :
    (b : Bool) × (check_event watching (pos 5) 4 (pos 2) ≡ ok b)
    × ((b ≡ true) ↔ Reported watching (pos 5) 4 2)
check_event-Reported_example = check_event-Reported watching (pos 5) 4 2 refl refl (omega arith)
