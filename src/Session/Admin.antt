-- ===== src/Session/Admin.antt =====
-- include/nexusfix/session/session_manager.hpp: the handlers of the session-level messages, and the
-- resending of stored ones.
pub mod States
use nexus_fix.Base.{
  ℕ, ◌+◌, Bool, true, false, not, ◌&&◌, ◌||◌, List, [], ◌∷◌, ◌++◌, Option, none, some, ltb, ◌==◌,
  if◌then◌else◌, Bytes, codes, length, is_empty,
}
use nexus_fix.Base.Words.{ℤ, pos, cast_u32, cast_int}
use nexus_fix.Types.{invalid_state, ok, err}
use nexus_fix.Types.MsgType
use nexus_fix.Types.Tag
use nexus_fix.Messages.Assembler.{MessageAssembler, start, field, field_int, finish}
use nexus_fix.Messages.Fix44.{build_heartbeat, build_logon, build_logout, build_sequence_reset}
use nexus_fix.Parser.FieldView.{FieldView}
use nexus_fix.Parser.Message.{ParsedMessage, parse, get_string, get_int, get_char}
use nexus_fix.Session.Context.{
  Session, Effect, sent, failed, logged_on, logged_out, Instant, notify,
}
use nexus_fix.Session.Heartbeat.{message_sent, set_interval}
use nexus_fix.Session.Heartbeat
use nexus_fix.Session.Sending.{transition, transmit, envelope, send_built, send_reject}
use nexus_fix.Session.Sequence.{current_outbound, set_inbound}
use nexus_fix.Session.State.{SessionState, SessionEvent, state_index}
use nexus_fix.Store.Interface.{IMessageStore}

abbrev pub is_state : {S : Type 0} → SessionState → Session S → Bool
is_state st s = state_index s.state == state_index st

-- The fields that `mark_poss_dup` writes itself, or leaves to the assembler.
unfoldable pub is_rewritten : ℕ → Bool
is_rewritten tag =
    tag == Tag.begin_string
    || tag == Tag.body_length
    || tag == Tag.msg_type
    || tag == Tag.sender_comp_id
    || tag == Tag.target_comp_id
    || tag == Tag.msg_seq_num
    || tag == Tag.sending_time
    || tag == Tag.poss_dup_flag
    || tag == Tag.orig_sending_time
    || tag == Tag.check_sum

unfoldable pub copy_fields : MessageAssembler → List FieldView → MessageAssembler
copy_fields a [] = a
copy_fields a (f ∷ fs) = copy_fields (if is_rewritten f.tag then a else field a f.tag f.value) fs

module _ {S : Type 0} (now : Instant) where
  -- The stored message with PossDupFlag, the original and a new sending time; an empty message when
  -- the stored one cannot be parsed.
  unfoldable pub mark_poss_dup : Bytes → Session S → Bytes × Session S
  mark_poss_dup stored s = elim (parse stored) [
    | err code tag offset ↦ ([], s)
    | ok p ↦
        let begun = start s.resend_asm s.config.begin_string in
        let typed = field begun Tag.msg_type (p.header.msg_type ∷ []) in
        let sender = field typed Tag.sender_comp_id s.config.sender_comp_id in
        let target = field sender Tag.target_comp_id s.config.target_comp_id in
        let numbered = field_int target Tag.msg_seq_num (pos p.header.msg_seq_num) in
        let stamped = field numbered Tag.sending_time now.timestamp in
        let flagged = field stamped Tag.poss_dup_flag (b'Y' ∷ []) in
        let dated = field flagged Tag.orig_sending_time p.header.sending_time in
        let marked = finish (copy_fields dated p.fields) in
        (marked.buffer, record s { resend_asm = marked })
  ]

  -- One stored message: it is counted as sent whatever `on_send` returns.
  unfoldable pub resend_one : Bytes → Session S → Session S
  resend_one stored s =
      let (marked, s') = mark_poss_dup stored s in
      if is_empty marked then s' else elim (s'.callbacks.on_send) [
        | none ↦ s'
        | some on_send ↦ record s' {
          heartbeat_timer = message_sent s'.heartbeat_timer now.steady;
          stats = record (s'.stats) {
            messages_sent = s'.stats.messages_sent + 1;
            bytes_sent = s'.stats.bytes_sent + length marked;
          };
          trace = sent marked (on_send s'.trace marked) ∷ s'.trace;
        }
      ]

  unfoldable pub resend_all : List Bytes → Session S → Session S
  resend_all [] s = s
  resend_all (m ∷ ms) s = resend_all ms (resend_one m s)

module _ {S : Type 0} (ops : IMessageStore S) (now : Instant) where
  abbrev reset_timer : Session S → Session S
  reset_timer s = record s { heartbeat_timer = Heartbeat.reset s.heartbeat_timer now.steady }

  -- The session is the initiator, and this answers its logon.
  unfoldable pub accept_logon : ParsedMessage → Session S → Session S
  accept_logon msg s =
      let paced : Session S = elim (get_int msg 108) [
        | none ↦ s
        | some v ↦ record s { heartbeat_timer = set_interval s.heartbeat_timer (cast_int v) }
      ] in
      notify s.callbacks.on_logon logged_on
        (reset_timer (transition SessionEvent.logon_received paced))

  -- The session is the acceptor, and answers.
  unfoldable pub answer_logon : Session S → Session S
  answer_logon s =
      let received = transition SessionEvent.logon_received s in
      let (accepted, s') =
        send_built ops now (λ a e. build_logon a e (pos 0) s.config.heart_bt_int false [] [])
          received in
      if accepted
      then notify s'.callbacks.on_logon logged_on
          (reset_timer (transition SessionEvent.logon_acknowledged s'))
      else s'

  unfoldable pub handle_logon : ParsedMessage → Session S → Session S
  handle_logon msg s =
      if is_state SessionState.logon_sent s
      then accept_logon msg s
      else if is_state SessionState.socket_connected s
      then answer_logon s
      else s

  unfoldable pub handle_logout : ParsedMessage → Session S → Session S
  handle_logout msg s =
      let received = transition SessionEvent.logout_received s in
      let (accepted, s') = send_built ops now (λ a e. build_logout a e []) received in
      let answered = if accepted then transition SessionEvent.logout_sent s' else s' in
      let done = if is_state SessionState.logout_pending s then received else answered in
      notify done.callbacks.on_logout (logged_out (get_string msg Tag.text)) done

  unfoldable pub handle_heartbeat : ParsedMessage → Session S → Session S
  handle_heartbeat msg s = record s {
    stats = record (s.stats) { heartbeats_received = s.stats.heartbeats_received + 1 };
  }

  unfoldable pub handle_test_request : ParsedMessage → Session S → Session S
  handle_test_request msg s =
      (send_built ops now (λ a e. build_heartbeat a e (get_string msg Tag.test_req_id)) s).1

  -- The gap fill that answers when no stored message does. It consumes no number.
  unfoldable pub fill_gap : ℕ → Session S → Session S
  fill_gap begin s =
      let built = record s {
        assembler =
            build_sequence_reset s.assembler (envelope ops now s begin)
              (current_outbound s.sequences) true;
      } in
      (transmit now built.assembler.buffer built).1

  -- `none` is a read of the store that does not return.
  unfoldable pub resend_range : ℕ → ℕ → Session S → Option (Session S)
  resend_range begin end s = elim (s.message_store) [
    | none ↦ some (fill_gap begin s)
    | some store ↦ elim (ops.retrieve_range store begin end) [
      | none ↦ none
      | some (messages, store') ↦
          let read = record s { message_store = some store' } in
          some (if is_empty messages then fill_gap begin read else resend_all now messages read)
    ]
  ]

  unfoldable pub handle_resend_request : ParsedMessage → Session S → Option (Session S)
  handle_resend_request msg s =
      let counted = record s {
        stats = record (s.stats) { resend_requests_sent = s.stats.resend_requests_sent + 1 };
      } in
      elim (get_int msg 7) [
        | none ↦ some counted
        | some begin_seq ↦ elim (get_int msg 16) [
          | none ↦ some counted
          | some end_seq ↦ resend_range (cast_u32 begin_seq) (cast_u32 end_seq) counted
        ]
      ]

  abbrev pub new_seq_no_too_low : Bytes
  new_seq_no_too_low = codes "Value is incorrect (NewSeqNo too low)"

  -- The part of `handle_sequence_reset` on the new number.
  unfoldable pub renumber : ParsedMessage → ℕ → Session S → Session S
  renumber msg new_seq_no s =
      if get_char msg 123 == b'Y' && ltb new_seq_no s.sequences.expected_inbound
      then send_reject ops now msg.header.msg_seq_num (pos 5) (pos 36) new_seq_no_too_low s
      else record s { sequences = set_inbound s.sequences new_seq_no }

  unfoldable pub handle_sequence_reset : ParsedMessage → Session S → Session S
  handle_sequence_reset msg s =
      let counted = record s {
        stats = record (s.stats) { sequence_resets = s.stats.sequence_resets + 1 };
      } in
      elim (get_int msg 36) [
        | none ↦ counted
        | some new_seq ↦ renumber msg (cast_u32 new_seq) counted
      ]

  unfoldable pub handle_reject : ParsedMessage → Session S → Session S
  handle_reject msg s = notify s.callbacks.on_error (failed invalid_state 0 0) s

  unfoldable pub handle_admin_message : ParsedMessage → Session S → Option (Session S)
  handle_admin_message msg s =
      let type = msg.header.msg_type in
      if type == MsgType.logon
      then some (handle_logon msg s)
      else if type == MsgType.logout
      then some (handle_logout msg s)
      else if type == MsgType.heartbeat
      then some (handle_heartbeat msg s)
      else if type == MsgType.test_request
      then some (handle_test_request msg s)
      else if type == MsgType.resend_request
      then handle_resend_request msg s
      else if type == MsgType.sequence_reset
      then some (handle_sequence_reset msg s)
      else if type == MsgType.reject
      then some (handle_reject msg s)
      else some s
