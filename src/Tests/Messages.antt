-- ===== src/Tests/Messages.antt =====
-- Messages built and parsed: include/nexusfix/messages/fix44 and include/nexusfix/parser.
use nexus_fix.Base.{
  some, arith, ltb, ◌&&◌, ◌==◌, ◌≤◌, ◌≡◌, refl, false, [], Bytes, codes, length, all, map,
}
use nexus_fix.Base.Words.{pos}
use nexus_fix.Types.{ok, err, empty_header, byte_sum, calculate_checksum, format_checksum}
use nexus_fix.Messages.Assembler.{
  MessageAssembler, new_assembler, max_message_size, append_byte, append_raw, append_field,
  reverse_onto, to_digits, start, field_int, write_length, finish,
}
use nexus_fix.Messages.Assembler.Decimal.{as_uint-to_digits}
use nexus_fix.Messages.Fix44.{Envelope, open_message, build_logon}
use nexus_fix.Messages.Fix44.Fields.{AdminMessage, build}
use nexus_fix.Messages.Fix44.Headed.{IsSendable}
use nexus_fix.Messages.Fix44.RoundTrip.{header_of}
use nexus_fix.Messages.Fix44.Views.{view}
use nexus_fix.Messages.Fix44.Whole.{sent_fields, parse-build}
use nexus_fix.Messages.Fix44.Valid.{build-checksum, build-bound}
use nexus_fix.Parser.FieldView.{
  FieldIterator, iterate, has_next, as_int, as_uint, as_char, as_bool, scan_tag, scan_value,
  next_at,
}
use nexus_fix.Parser.FieldView
use nexus_fix.Messages.Assembler
use nexus_fix.Parser.Header.Rounds.{header_loop-done}
use nexus_fix.Parser.Header.{
  HeaderState, start_state, header_fuel, max_header_fields, header_bit, has_bit, mark_seen,
  take_field, header_round, header_loop, check_required, parse_header,
}
use nexus_fix.Parser.Frame.{
  trailer_at, find_checksum, validate_checksum, find_soh, find_body_start, find_body_end,
  validate_body_length,
}
use nexus_fix.Parser.Message.{
  ParsedMessage, parse, scan_positions, has_soh, check_truncation, scan_soh, find_equals, tag_loop,
  parse_field, parse_fields,
}
use nexus_fix.Parser.Message.Accepted.{IsAccepted, parse-IsAccepted}

abbrev pub from_broker : Envelope
from_broker = record {
  begin_string = codes "FIX.4.4";
  sender_comp_id = codes "BROKER";
  target_comp_id = codes "CLIENT";
  msg_seq_num = 1;
  sending_time = codes "20240102-03:04:05.006";
}

-- A logon message, as the broker builds it.
abbrev pub logon_bytes : Bytes
logon_bytes = (build_logon new_assembler from_broker (pos 0) (pos 30) false (codes "me") []).buffer

abbrev pub logon_message : ParsedMessage
logon_message = elim (parse logon_bytes) [
  | ok m ↦ m
  | err code tag offset ↦ record { raw = []; header = empty_header; fields = [] }
]

logon_parses : parse logon_bytes ≡ ok logon_message
unfolding byte_sum calculate_checksum format_checksum append_byte append_raw append_field
    Assembler.digits_loop reverse_onto to_digits start field_int write_length finish open_message
    build_logon FieldView.digits_loop as_int as_uint as_char as_bool scan_tag scan_value next_at
    header_bit has_bit mark_seen take_field header_round header_loop check_required parse_header
    trailer_at find_checksum validate_checksum find_soh find_body_start find_body_end
    validate_body_length parse scan_positions has_soh check_truncation scan_soh find_equals tag_loop
    parse_field parse_fields
logon_parses = refl

parse-IsAccepted_example : IsAccepted logon_bytes logon_message
parse-IsAccepted_example = parse-IsAccepted logon_bytes logon_message logon_parses

logon_fits :
    (build new_assembler from_broker
      (AdminMessage.logon (pos 0) (pos 30) false (codes "me") [])).truncated
    ≡ false
unfolding build byte_sum calculate_checksum format_checksum append_byte append_raw append_field
    Assembler.digits_loop reverse_onto to_digits start field_int write_length finish open_message
    build_logon
logon_fits = refl

build-checksum_example :
    validate_checksum
      (build new_assembler from_broker
        (AdminMessage.logon (pos 0) (pos 30) false (codes "me") [])).buffer
    ≡ ok tt
build-checksum_example =
    build-checksum new_assembler from_broker
      (AdminMessage.logon (pos 0) (pos 30) false (codes "me") []) logon_fits

broker-IsSendable : IsSendable from_broker
unfolding all
broker-IsSendable = record {
  begin_string = refl;
  begins = refl;
  sender_comp_id = refl;
  sends = refl;
  target_comp_id = refl;
  targets = refl;
  sending_time = refl;
  numbered = omega arith;
  counted = omega arith;
}

abbrev broker_logon : AdminMessage
broker_logon = AdminMessage.logon (pos 0) (pos 30) false (codes "me") []

parse-build_example :
    parse (build new_assembler from_broker broker_logon).buffer
    ≡ ok (record {
      raw = (build new_assembler from_broker broker_logon).buffer;
      header = header_of from_broker broker_logon;
      fields = map view (sent_fields from_broker broker_logon);
    })
unfolding all
parse-build_example =
    parse-build from_broker broker_logon broker-IsSendable refl new_assembler logon_fits

build-bound_example :
    length (build new_assembler from_broker (AdminMessage.logout (codes "bye"))).buffer
    ≤ max_message_size
build-bound_example = build-bound new_assembler from_broker (AdminMessage.logout (codes "bye"))

abbrev header_end : HeaderState × FieldIterator
header_end = elim (header_loop (header_fuel logon_bytes) start_state (iterate logon_bytes)) [
  | ok end ↦ end
  | err code tag offset ↦ (start_state, iterate logon_bytes)
]

header_reads :
    header_loop (header_fuel logon_bytes) start_state (iterate logon_bytes)
    ≡ ok (header_end.0, header_end.1)
unfolding byte_sum calculate_checksum format_checksum append_byte append_raw append_field
    Assembler.digits_loop reverse_onto to_digits start field_int write_length finish open_message
    build_logon FieldView.digits_loop as_int as_uint as_char as_bool scan_tag scan_value next_at
    header_bit has_bit mark_seen take_field header_round header_loop
header_reads = refl

header_loop-done_example :
    (has_next header_end.1
      && ltb header_end.0.fields_parsed max_header_fields
      && header_end.0.body_start == 0)
    ≡ false
header_loop-done_example = header_loop-done logon_bytes header_end.0 header_end.1 header_reads

as_uint-to_digits_example :
    as_uint (to_digits 18_446_744_073_709_551_615) ≡ some 18_446_744_073_709_551_615
as_uint-to_digits_example = as_uint-to_digits 18_446_744_073_709_551_615 (omega arith)
