-- ===== src/Session/Manager/Receive.antt =====
-- How `on_data_received` moves the state: through all its checks, only a Logon message raises
-- `logon_received`, and nothing raises a connection.
use nexus_fix.Base.{
  ℕ, ◌≡◌, refl, sym, ◌∙◌, Bool, false, not, ◌&&◌, some, arith, ◌==◌, ◌+◌, length, if◌then◌else◌,
  Bytes, is_empty, codes,
}
use nexus_fix.Base.Words.{ℤ, pos}
use nexus_fix.Types.{invalid_state, ok, err, is_admin}
use nexus_fix.Types.MsgType
use nexus_fix.Parser.Message.{ParsedMessage, parse}
use nexus_fix.Session.Admin.{is_state}
use nexus_fix.Session.Clock.{is_sending_time_accurate}
use nexus_fix.Session.Context.{Session, failed, Instant, notify}
use nexus_fix.Session.Heartbeat.{message_received}
use nexus_fix.Session.Manager.Calls.{is_logon}
use nexus_fix.Session.Manager.Moves.{
  permits, Moves, MovesTo, stays, moves, pick, handle_admin_message-MovesTo,
}
use nexus_fix.Session.Manager.{
  handle_sequence_gap, handle_sequence_error, handle_app_message, save_target, route, process,
  comp_ids_match, validate, on_data_received,
}
use nexus_fix.Session.Sending.{send_reject, send_logout_and_disconnect}
use nexus_fix.Session.Sending.States.{
  notify-state, send_built-state, send_reject-state, send_logout_and_disconnect-state,
}
use nexus_fix.Session.Sequence.{in_order, gap_detected, too_low, validate_inbound}
use nexus_fix.Session.State.{SessionState, SessionEvent}
use nexus_fix.Store.Interface.{IMessageStore}

module _ {S : Type 0} (ops : IMessageStore S) (now : Instant) where
  save_target-state : (s : Session S) → (save_target ops now s).state ≡ s.state
  save_target-state s = ground arith

  handle_sequence_gap-state :
      (received : ℕ) (s : Session S) → (handle_sequence_gap ops now received s).state ≡ s.state
  unfolding handle_sequence_gap
  handle_sequence_gap-state received s = send_built-state ops now _ s

  handle_app_message-state :
      (msg : ParsedMessage) (s : Session S) → (handle_app_message ops now msg s).state ≡ s.state
  unfolding handle_app_message
  handle_app_message-state msg s = notify-state _ _ s

  handle_sequence_error-state :
      (received : ℕ) (s : Session S) → (handle_sequence_error ops now received s).state ≡ s.state
  unfolding handle_sequence_error
  handle_sequence_error-state received s = notify-state _ _ s

  -- From a state that the message found.
  route-MovesTo :
      (msg : ParsedMessage) (a : SessionState) (s : Session S)
      → s.state ≡ a
      → MovesTo (permits (msg.header.msg_type == MsgType.logon)) a (route ops now msg s)
  unfolding route
  route-MovesTo msg a s e =
      let l = permits (msg.header.msg_type == MsgType.logon) in
      rw (sym e) (
        pick l s.state (is_admin msg.header.msg_type) _ _
          (λ e. handle_admin_message-MovesTo ops now msg s)
          (λ e. stays l _ _ (handle_app_message-state msg s)))

  process-MovesTo :
      (msg : ParsedMessage) (s : Session S)
      → MovesTo (permits (msg.header.msg_type == MsgType.logon)) s.state (process ops now msg s)
  unfolding process
  process-MovesTo msg s =
      let l = permits (msg.header.msg_type == MsgType.logon) in
      let received = msg.header.msg_seq_num in
      let (verdict, m) = validate_inbound s.sequences received in
      let checked = record s { sequences = m } in
      elim verdict
        as (λ v. MovesTo l s.state (elim v [
          | in_order ↦ route ops now msg (save_target ops now checked)
          | gap_detected ↦ route ops now msg (handle_sequence_gap ops now received checked)
          | too_low ↦
              if not msg.header.poss_dup_flag
              then some (handle_sequence_error ops now received checked)
              else route ops now msg checked
        ])) [
          | in_order ↦ route-MovesTo msg s.state _ (save_target-state checked)
          | gap_detected ↦ route-MovesTo msg s.state _ (handle_sequence_gap-state received checked)
          | too_low ↦
              pick l s.state (not msg.header.poss_dup_flag) _ _
                (λ e. stays l _ _ (handle_sequence_error-state received checked))
                (λ e. route-MovesTo msg s.state checked refl)
        ]

  refuse-Moves :
      (l : Bool) (seq : ℕ) (reason tag : ℤ) (text why : Bytes) (s : Session S)
      → Moves
          (permits l)
          s.state
          (send_logout_and_disconnect ops now why (send_reject ops now seq reason tag text s)).state
  refuse-Moves l seq reason tag text why s =
      moves (permits l) _ _ SessionEvent.disconnect (ground arith) (
        send_logout_and_disconnect-state ops now why (send_reject ops now seq reason tag text s)
        ∙ rw (send_reject-state ops now seq reason tag text s))

  validate-MovesTo :
      (msg : ParsedMessage) (s : Session S)
      → MovesTo (permits (msg.header.msg_type == MsgType.logon)) s.state (validate ops now msg s)
  unfolding validate
  validate-MovesTo msg s =
      let logon = msg.header.msg_type == MsgType.logon in
      let l = permits logon in
      let seq = msg.header.msg_seq_num in
      let comp_id = codes "CompID problem" in
      let incorrect = codes "Incorrect SenderCompID or TargetCompID" in
      let inaccurate = codes "SendingTime accuracy problem" in
      let missing = codes "Required tag missing" in
      let reject = send_reject ops now seq in
      let leave = send_logout_and_disconnect ops now in
      pick l s.state
        (s.config.validate_comp_ids
          && not (is_state SessionState.socket_connected s)
          && not (comp_ids_match ops now msg s))
        (some (leave incorrect (reject (pos 9) (pos 0) comp_id s))) _
        (λ e. refuse-Moves logon seq (pos 9) (pos 0) comp_id incorrect s)
        (λ e.
          pick l s.state
            (s.config.check_latency
              && is_state SessionState.active s
              && not (
                  is_sending_time_accurate msg.header.sending_time now.system s.config.max_latency))
            (some (leave inaccurate (reject (pos 10) (pos 0) inaccurate s))) _
            (λ e. refuse-Moves logon seq (pos 10) (pos 0) inaccurate inaccurate s)
            (λ e.
              pick l s.state (msg.header.poss_dup_flag && is_empty msg.header.orig_sending_time)
                (some (reject (pos 1) (pos 122) missing s)) (process ops now msg s)
                (λ e. stays l _ _ (send_reject-state ops now seq (pos 1) (pos 122) missing s))
                (λ e. process-MovesTo msg s)))

  pub on_data_received-MovesTo :
      (bytes : Bytes) (s : Session S)
      → MovesTo (permits (is_logon bytes)) s.state (on_data_received ops now bytes s)
  unfolding on_data_received
  on_data_received-MovesTo bytes s =
      let counted : Session S = record s {
        heartbeat_timer = message_received s.heartbeat_timer now.steady;
        stats = record (s.stats) {
          messages_received = s.stats.messages_received + 1;
          bytes_received = s.stats.bytes_received + length bytes;
        };
      } in
      elim (parse bytes)
        as (λ r.
          MovesTo
            (permits (elim r [
              | ok msg ↦ msg.header.msg_type == MsgType.logon
              | err code tag offset ↦ false
            ]))
            s.state
            (elim r [
              | err code tag offset ↦
                  some (notify counted.callbacks.on_error (failed invalid_state 0 0) counted)
              | ok msg ↦ validate ops now msg counted
            ])) [
              | err code tag offset ↦ stays (permits false) _ _ (notify-state _ _ counted)
              | ok msg ↦ validate-MovesTo msg counted
            ]
