-- ===== src/Session/Manager.antt =====
-- include/nexusfix/session/session_manager.hpp: the methods that the application calls.
pub mod Calls
pub mod Moves
pub mod Receive
pub mod Handshake
pub mod Timer
pub mod Delivery
use nexus_fix.Base.{
  [], ◌+◌, Bool, true, false, not, ◌&&◌, Option, none, some, ltb, if◌then◌else◌, equal, Bytes,
  codes, length, is_empty, ℕ,
}
use nexus_fix.Base.Words.{ℤ, pos}
use nexus_fix.Types.{
  SessionErrorCode, invalid_state, not_connected, sequence_gap, ok, err, is_admin,
}
use nexus_fix.Messages.Assembler.{MessageAssembler}
use nexus_fix.Messages.Fix44.{Envelope, build_logon, build_logout, build_resend_request}
use nexus_fix.Parser.Message.{ParsedMessage, parse}
use nexus_fix.Session.Admin.{is_state, handle_admin_message}
use nexus_fix.Session.Clock.{is_sending_time_accurate}
use nexus_fix.Session.Context.{Session, failed, app_message, Instant, notify}
use nexus_fix.Session.Heartbeat.{
  message_received, has_timed_out, should_send_test_request, should_send_heartbeat,
}
use nexus_fix.Session.Sending.{
  transition, send_built, send_heartbeat, send_test_request, send_reject,
  send_logout_and_disconnect,
}
use nexus_fix.Session.Sequence.{
  SequenceManager, SequenceResult, in_order, gap_detected, too_low, initial_seq_num, gap_range,
  set_inbound, set_outbound, validate_inbound,
}
use nexus_fix.Session.Sequence
use nexus_fix.Session.State.{SessionState, SessionEvent, can_send_app_messages}
use nexus_fix.Store.Interface.{IMessageStore}

-- `SessionResult<void>`
pub data SessionResult : Type 0 where
  done : SessionResult
  refused : SessionErrorCode → SessionResult

unfoldable pub on_connect : {S : Type 0} → Session S → Session S
on_connect s = transition SessionEvent.connect s

unfoldable pub on_disconnect : {S : Type 0} → Session S → Session S
on_disconnect s = transition SessionEvent.disconnect s

module _ {S : Type 0} (ops : IMessageStore S) (now : Instant) where
  -- The numbers that a stored session goes on with.
  abbrev restore : S → SequenceManager → SequenceManager
  restore store m =
      let sender_seq = ops.get_next_sender_seq_num store in
      let target_seq = ops.get_next_target_seq_num store in
      let m' = if ltb initial_seq_num sender_seq then set_outbound m sender_seq else m in
      if ltb initial_seq_num target_seq then set_inbound m' target_seq else m'

  unfoldable pub logon_sequences : Session S → SequenceManager
  logon_sequences s =
      if s.config.reset_seq_num_on_logon
      then Sequence.reset s.sequences
      else elim (s.message_store) [ none ↦ s.sequences | some store ↦ restore store s.sequences ]

  unfoldable pub initiate_logon : Session S → SessionResult × Session S
  initiate_logon s =
      if not (is_state SessionState.socket_connected s)
      then (refused invalid_state, s)
      else (let (accepted, s') =
            send_built ops now
              (λ a e.
                build_logon a e (pos 0) s.config.heart_bt_int s.config.reset_seq_num_on_logon [] [])
              (record s { sequences = logon_sequences s }) in
          if accepted
          then (done, transition SessionEvent.logon_sent s')
          else (refused not_connected, s'))

  unfoldable pub initiate_logout : Bytes → Session S → SessionResult × Session S
  initiate_logout text s =
      if not (is_state SessionState.active s)
      then (refused invalid_state, s)
      else (let (accepted, s') = send_built ops now (λ a e. build_logout a e text) s in
          if accepted
          then (done, transition SessionEvent.logout_sent s')
          else (refused not_connected, s'))

  -- The builder is the application's; it is given the envelope, and its message is assembled.
  unfoldable pub send_app_message :
      (MessageAssembler → Envelope → MessageAssembler) → Session S → SessionResult × Session S
  send_app_message build s =
      if not (can_send_app_messages s.state)
      then (refused invalid_state, s)
      else (let (accepted, s') = send_built ops now build s in
          (if accepted then done else refused not_connected, s'))

  unfoldable pub on_timer_tick : Session S → Session S
  on_timer_tick s =
      if not (is_state SessionState.active s)
      then s
      else if has_timed_out s.heartbeat_timer now.steady
      then transition SessionEvent.heartbeat_timeout s
      else if should_send_test_request s.heartbeat_timer now.steady
      then send_test_request ops now s
      else if should_send_heartbeat s.heartbeat_timer now.steady
      then send_heartbeat ops now [] s
      else s

  unfoldable pub handle_sequence_gap : ℕ → Session S → Session S
  handle_sequence_gap received s =
      let (begin, end) = gap_range s.sequences received in
      (send_built ops now (λ a e. build_resend_request a e begin end) s).1

  unfoldable pub handle_sequence_error : ℕ → Session S → Session S
  handle_sequence_error received s =
      notify s.callbacks.on_error (failed sequence_gap s.sequences.expected_inbound received) s

  unfoldable pub handle_app_message : ParsedMessage → Session S → Session S
  handle_app_message msg s = notify s.callbacks.on_app_message (app_message msg) s

  -- Saves the number expected next, after a message in order.
  abbrev save_target : Session S → Session S
  save_target s = elim (s.message_store) [
    | none ↦ s
    | some store ↦ record s {
      message_store = some (ops.set_next_target_seq_num store s.sequences.expected_inbound);
    }
  ]

  unfoldable pub route : ParsedMessage → Session S → Option (Session S)
  route msg s =
      if is_admin msg.header.msg_type
      then handle_admin_message ops now msg s
      else some (handle_app_message msg s)

  -- From the validation of the sequence number on.
  unfoldable pub process : ParsedMessage → Session S → Option (Session S)
  process msg s =
      let received = msg.header.msg_seq_num in
      let (verdict, m) = validate_inbound s.sequences received in
      let checked = record s { sequences = m } in
      elim verdict [
        | in_order ↦ route msg (save_target checked)
        | gap_detected ↦ route msg (handle_sequence_gap received checked)
        | too_low ↦
            if not msg.header.poss_dup_flag
            then some (handle_sequence_error received checked)
            else route msg checked
      ]

  abbrev comp_ids_match : ParsedMessage → Session S → Bool
  comp_ids_match msg s =
      equal msg.header.sender_comp_id s.config.target_comp_id
      && equal msg.header.target_comp_id s.config.sender_comp_id

  -- The checks on a parsed message, in the order of the code.
  unfoldable pub validate : ParsedMessage → Session S → Option (Session S)
  validate msg s =
      let received = msg.header.msg_seq_num in
      if s.config.validate_comp_ids
        && not (is_state SessionState.socket_connected s)
        && not (comp_ids_match msg s)
      then some (
          send_logout_and_disconnect ops now (codes "Incorrect SenderCompID or TargetCompID")
            (send_reject ops now received (pos 9) (pos 0) (codes "CompID problem") s))
      else if s.config.check_latency
          && is_state SessionState.active s
          && not (is_sending_time_accurate msg.header.sending_time now.system s.config.max_latency)
      then some (
          send_logout_and_disconnect ops now (codes "SendingTime accuracy problem") (
            send_reject ops now received (pos 10) (pos 0) (codes "SendingTime accuracy problem") s))
      else if msg.header.poss_dup_flag && is_empty msg.header.orig_sending_time
      then some (send_reject ops now received (pos 1) (pos 122) (codes "Required tag missing") s)
      else process msg s

  -- `none` is a call that does not return, because a read of the store does not.
  unfoldable pub on_data_received : Bytes → Session S → Option (Session S)
  on_data_received bytes s =
      let counted = record s {
        heartbeat_timer = message_received s.heartbeat_timer now.steady;
        stats = record (s.stats) {
          messages_received = s.stats.messages_received + 1;
          bytes_received = s.stats.bytes_received + length bytes;
        };
      } in
      elim (parse bytes) [
        | err code tag offset ↦
            some (notify counted.callbacks.on_error (failed invalid_state 0 0) counted)
        | ok msg ↦ validate msg counted
      ]
