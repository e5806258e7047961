-- ===== src/Tests/Sessions.antt =====
-- A session of include/nexusfix/session/session_manager.hpp with the store of
-- include/nexusfix/store/memory_message_store.hpp.
use nexus_fix.Base.{◌≡◌, refl, true, false, List, [], ◌∷◌, some, none, codes, arith, equal}
use nexus_fix.Base.Words.{pos}
use nexus_fix.Types.{byte_sum, calculate_checksum, format_checksum, is_admin}
use nexus_fix.Messages.Assembler.{
  MessageAssembler, append_byte, append_raw, append_field, reverse_onto, to_digits, start,
  field_int, write_length, finish,
}
use nexus_fix.Messages.Assembler
use nexus_fix.Messages.Fix44.{Envelope, open_message, build_logon, build_heartbeat}
use nexus_fix.Parser.FieldView.{as_int, as_uint, as_char, as_bool, scan_tag, scan_value, next_at}
use nexus_fix.Parser.FieldView
use nexus_fix.Parser.Header.{
  header_bit, has_bit, mark_seen, take_field, header_round, header_loop, check_required,
  parse_header,
}
use nexus_fix.Parser.Frame.{
  trailer_at, find_checksum, validate_checksum, find_soh, find_body_start, find_body_end,
  validate_body_length,
}
use nexus_fix.Parser.Message.{
  ParsedMessage, parse, scan_positions, has_soh, check_truncation, scan_soh, find_equals, tag_loop,
  parse_field, parse_fields, get_field,
}
use nexus_fix.Session.Admin.{handle_admin_message, handle_logon, accept_logon}
use nexus_fix.Session.Context.{Session, SessionConfig, SessionCallbacks, Instant, new_session}
use nexus_fix.Session.Heartbeat.{new_timer, message_sent, message_received, set_interval}
use nexus_fix.Session.Heartbeat
use nexus_fix.Session.Manager.Calls.{Call, make, make_all}
use nexus_fix.Session.Manager.Handshake.{has_logon_after_connect, calls_need_handshake}
use nexus_fix.Session.Manager.Delivery.{process-delivery}
use nexus_fix.Session.Manager.Timer.{on_timer_tick-state}
use nexus_fix.Session.Manager.{
  on_connect, initiate_logon, logon_sequences, on_data_received, on_timer_tick, validate, process,
  route,
}
use nexus_fix.Session.Sending.Kept.{app_messages}
use nexus_fix.Session.Sending.{transition, transmit, keep_copy, send_message, send_built}
use nexus_fix.Session.Sequence.{next_outbound, set_outbound, set_inbound, validate_inbound}
use nexus_fix.Session.State.{SessionState, next_state}
use nexus_fix.Store.Memory.{
  MemoryMessageStore, new_store, memory_store, store, place, insert_message, find,
}
use nexus_fix.Store.Interface.{IMessageStore}
use nexus_fix.Tests.Messages.{logon_bytes, logon_message}

abbrev ops : IMessageStore MemoryMessageStore
ops = memory_store (λ served size. true)

abbrev now : Instant
now = record {
  steady = 5_000_000_000;
  system = 1_704_164_645;
  timestamp = codes "20240102-03:04:05.000";
}

abbrev config : SessionConfig
config = record {
  sender_comp_id = codes "CLIENT";
  target_comp_id = codes "BROKER";
  begin_string = codes "FIX.4.4";
  heart_bt_int = pos 30;
  reset_seq_num_on_logon = false;
  validate_comp_ids = true;
  check_latency = false;
  max_latency = pos 120;
}

-- Every callback is set, and every message is accepted.
abbrev callbacks : SessionCallbacks
callbacks = record {
  on_send = some (λ before msg. true);
  on_app_message = true;
  on_state_change = true;
  on_error = true;
  on_logon = true;
  on_logout = true;
}

abbrev first_store : MemoryMessageStore
first_store =
    new_store
      (record { max_messages = 10; max_bytes = 1000; evict_oldest = true; pool_size_bytes = 64 })

abbrev begun : Session MemoryMessageStore
begun = new_session config callbacks (some first_store) now

abbrev logging_on : List (Instant × Call)
logging_on = (now, Call.connect) ∷ (now, Call.logon) ∷ (now, Call.receive logon_bytes) ∷ []

abbrev logged_on : Session MemoryMessageStore
logged_on = elim (make_all ops logging_on begun) [ none ↦ begun | some s ↦ s ]

-- Connecting, sending a logon and reading the answer makes the session active.
logs_on : (make_all ops logging_on begun ≡ some logged_on) × (logged_on.state ≡ SessionState.active)
unfolding make make_all on_connect initiate_logon logon_sequences on_data_received validate process
    route handle_admin_message handle_logon accept_logon new_session new_timer message_sent
    message_received set_interval Heartbeat.reset transition transmit keep_copy send_message
    send_built next_outbound set_outbound set_inbound validate_inbound next_state store place
    insert_message find get_field is_admin byte_sum calculate_checksum format_checksum append_byte
    append_raw append_field Assembler.digits_loop reverse_onto to_digits start field_int
    write_length finish open_message build_logon FieldView.digits_loop as_int as_uint as_char
    as_bool scan_tag scan_value next_at header_bit has_bit mark_seen take_field header_round
    header_loop check_required parse_header trailer_at find_checksum validate_checksum find_soh
    find_body_start find_body_end validate_body_length parse scan_positions has_soh check_truncation
    scan_soh find_equals tag_loop parse_field parse_fields equal
logs_on = (refl, refl)

calls_need_handshake_example : has_logon_after_connect logging_on ≡ true
unfolding new_session
calls_need_handshake_example =
    calls_need_handshake ops logging_on begun logged_on refl logs_on.0 logs_on.1

-- An order that the broker reports on, with the number that the session expects.
abbrev report : ParsedMessage
report = record (logon_message) {
  header = record (logon_message.header) { msg_type = b'8'; msg_seq_num = 1 };
}

process-delivery_example :
    (s' : Session MemoryMessageStore) × (process ops now report begun ≡ some s')
    × (s'.state ≡ SessionState.disconnected)
    × (s'.sequences.expected_inbound ≡ 2)
    × (app_messages s'.trace ≡ report ∷ [])
unfolding new_session is_admin app_messages
process-delivery_example = process-delivery ops now report begun refl refl

abbrev heartbeat : MessageAssembler → Envelope → MessageAssembler
heartbeat a e = build_heartbeat a e []

abbrev quiet : Session MemoryMessageStore
quiet = record begun { state = SessionState.active }

abbrev later : Instant
later = record now { steady = 65_000_000_000 }

on_timer_tick-state_example : (on_timer_tick ops later quiet).state ≡ SessionState.error
unfolding new_session new_timer
on_timer_tick-state_example = on_timer_tick-state ops later quiet 30 refl refl (omega arith)
