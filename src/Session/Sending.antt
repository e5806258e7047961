-- ===== src/Session/Sending.antt =====
-- include/nexusfix/session/session_manager.hpp: transitions, the way out of a message, and the
-- messages that the session sends of itself.
pub mod Numbers
pub mod States
pub mod Kept
pub mod Resendable
use nexus_fix.Base.{
  ℕ, ◌+◌, ◌-◌, Bool, true, false, List, [], ◌∷◌, ◌++◌, Option, none, some, leb, ◌==◌, if◌then◌else◌,
  Bytes, codes, length,
}
use nexus_fix.Base.Words.{ℤ, pos}
use nexus_fix.Types.{SessionErrorCode, comp_id_mismatch, invalid_state}
use nexus_fix.Messages.Assembler.{MessageAssembler, to_digits}
use nexus_fix.Messages.Fix44.{
  Envelope, build_heartbeat, build_logout, build_reject, build_test_request,
}
use nexus_fix.Session.Context.{Session, Effect, sent, state_changed, failed, Instant, notify}
use nexus_fix.Session.Heartbeat.{message_sent, test_request_sent}
use nexus_fix.Session.Sequence.{
  initial_seq_num, max_seq_num, next_outbound, current_outbound, rollback_outbound,
}
use nexus_fix.Session.State.{SessionState, SessionEvent, state_index, next_state}
use nexus_fix.Store.Interface.{IMessageStore}

unfoldable pub transition : {S : Type 0} → SessionEvent → Session S → Session S
transition event s =
    let next = next_state s.state event in
    if state_index next == state_index s.state
    then s
    else notify s.callbacks.on_state_change (state_changed s.state next) (record s { state = next })

-- The bookkeeping of a transmission that `on_send` accepted.
abbrev count_sent : {S : Type 0} → Instant → Bytes → Session S → Session S
count_sent now msg s = record s {
  heartbeat_timer = message_sent s.heartbeat_timer now.steady;
  stats = record (s.stats) {
    messages_sent = s.stats.messages_sent + 1;
    bytes_sent = s.stats.bytes_sent + length msg;
  };
}

unfoldable pub transmit : {S : Type 0} → Instant → Bytes → Session S → Bool × Session S
transmit now msg s = elim (s.callbacks.on_send) [
  | none ↦ (false, s)
  | some on_send ↦
      if s.assembler.truncated
      then (false, s)
      else (let accepted = on_send s.trace msg in
          let called = record s { trace = sent msg accepted ∷ s.trace } in
          if accepted then (true, count_sent now msg called) else (false, called))
]

-- The number of the message just sent, from the number of the next one.
abbrev pub sent_seq_num : ℕ → ℕ
sent_seq_num next = if leb next initial_seq_num then max_seq_num else next - 1

module _ {S : Type 0} (ops : IMessageStore S) (now : Instant) where
  unfoldable pub keep_copy : Bytes → Session S → Session S
  keep_copy msg s = elim (s.message_store) [
    | none ↦ s
    | some store ↦
        let next = current_outbound s.sequences in
        let kept = (ops.store store (sent_seq_num next) msg).1 in
        record s { message_store = some (ops.set_next_sender_seq_num kept next) }
  ]

  unfoldable pub send_message : Bytes → Session S → Bool × Session S
  send_message msg s =
      let (accepted, s') = transmit now msg s in
      if accepted
      then (true, keep_copy msg s')
      else (false, record s' { sequences = rollback_outbound s'.sequences })

  abbrev pub envelope : Session S → ℕ → Envelope
  envelope s seq = record {
    begin_string = s.config.begin_string;
    sender_comp_id = s.config.sender_comp_id;
    target_comp_id = s.config.target_comp_id;
    msg_seq_num = seq;
    sending_time = now.timestamp;
  }

  -- The session with a message built under the next number.
  abbrev pub build_next : (MessageAssembler → Envelope → MessageAssembler) → Session S → Session S
  build_next build s =
      let (seq, numbered) = next_outbound s.sequences in
      record s { sequences = numbered; assembler = build s.assembler (envelope s seq) }

  -- Every numbered message is built into `assembler_` and sent from there.
  unfoldable pub send_built :
      (MessageAssembler → Envelope → MessageAssembler) → Session S → Bool × Session S
  send_built build s = let built = build_next build s in send_message built.assembler.buffer built

  unfoldable pub send_heartbeat : Bytes → Session S → Session S
  send_heartbeat test_req_id s =
      let (accepted, s') = send_built (λ a e. build_heartbeat a e test_req_id) s in
      if accepted
      then record s' {
        stats = record (s'.stats) { heartbeats_sent = s'.stats.heartbeats_sent + 1 };
      }
      else s'

  -- `TEST%lu`
  abbrev pub test_request_id : Session S → Bytes
  test_request_id s = codes "TEST" ++ to_digits (s.stats.test_requests_sent + 1)

  unfoldable pub send_test_request : Session S → Session S
  send_test_request s =
      let (accepted, s') = send_built (λ a e. build_test_request a e (test_request_id s)) s in
      if accepted
      then record s' {
        heartbeat_timer = test_request_sent s'.heartbeat_timer;
        stats = record (s'.stats) { test_requests_sent = s'.stats.test_requests_sent + 1 };
      }
      else s'

  unfoldable pub send_reject : ℕ → ℤ → ℤ → Bytes → Session S → Session S
  send_reject ref_seq_num reason ref_tag_id text s =
      let (accepted, s') =
        send_built (λ a e. build_reject a e ref_seq_num ref_tag_id reason text) s in
      if accepted
      then record s' { stats = record (s'.stats) { rejects_sent = s'.stats.rejects_sent + 1 } }
      else s'

  unfoldable pub send_logout_and_disconnect : Bytes → Session S → Session S
  send_logout_and_disconnect reason s =
      let (accepted, s') = send_built (λ a e. build_logout a e reason) s in
      let gone = transition SessionEvent.disconnect s' in
      notify gone.callbacks.on_error (failed comp_id_mismatch 0 0) gone
