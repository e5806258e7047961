-- ===== src/Session/Admin/States.antt =====
-- The handlers of session-level messages change the state by the transition table alone, and only
-- the handlers of a logon and of a logout change it at all.
use nexus_fix.Base.{
  ℕ, ◌+◌, ◌≡◌, refl, ◌∙◌, inl, inr, List, [], ◌∷◌, Option, none, some, arith, Bytes, if◌then◌else◌,
  Option-cases, is_empty,
}
use nexus_fix.Base.Words.{pos, cast_u32}
use nexus_fix.Parser.Message.{ParsedMessage, get_int}
use nexus_fix.Session.Admin.{
  mark_poss_dup, resend_one, resend_all, fill_gap, resend_range, handle_resend_request, renumber,
  handle_sequence_reset, handle_test_request, handle_heartbeat, handle_reject, new_seq_no_too_low,
}
use nexus_fix.Session.Context.{Session, Instant}
use nexus_fix.Session.Sending.States.{
  notify-state, transmit-state, send_built-state, send_reject-state,
}
use nexus_fix.Session.State.{SessionState}
use nexus_fix.Store.Interface.{IMessageStore}

-- A call that returns leaves this state.
abbrev pub HasState : {S : Type 0} → SessionState → Option (Session S) → Type 0
HasState st none = Unit {0}
HasState st (some s) = s.state ≡ st

module _ {S : Type 0} (now : Instant) where
  mark_poss_dup-state : (m : Bytes) (s : Session S) → (mark_poss_dup now m s).1.state ≡ s.state
  unfolding mark_poss_dup
  mark_poss_dup-state m s = ground arith

  resend_one-state : (m : Bytes) (s : Session S) → (resend_one now m s).state ≡ s.state
  unfolding resend_one
  resend_one-state m s = ground (arith, mark_poss_dup-state m s)

  resend_all-state : (ms : List Bytes) (s : Session S) → (resend_all now ms s).state ≡ s.state
  unfolding resend_all
  resend_all-state [] s = refl
  resend_all-state (m ∷ ms) s = resend_all-state ms (resend_one now m s) ∙ resend_one-state m s

module _ {S : Type 0} (ops : IMessageStore S) (now : Instant) where
  fill_gap-state : (begin : ℕ) (s : Session S) → (fill_gap ops now begin s).state ≡ s.state
  unfolding fill_gap
  fill_gap-state begin s = transmit-state now _ _

  answer-state :
      (begin : ℕ) (messages : List Bytes) (s : Session S)
      → (if is_empty messages then fill_gap ops now begin s else resend_all now messages s).state
        ≡ s.state
  answer-state begin [] s = fill_gap-state begin s
  answer-state begin (m ∷ ms) s = resend_all-state now (m ∷ ms) s

  -- Whatever the store returns, if it returns.
  resend_range-state :
      (begin end : ℕ) (s : Session S) → HasState s.state (resend_range ops now begin end s)
  unfolding resend_range
  resend_range-state begin end s = elim (Option-cases s.message_store) [
    | inl none_set ↦ rw (none_set, resend_range) (fill_gap-state begin s)
    | inr (store, set) ↦ elim (Option-cases (ops.retrieve_range store begin end)) [
      | inl endless ↦ rw (set, resend_range) (rw (endless, resend_range) tt)
      | inr ((messages, store'), found) ↦
          rw (set, resend_range)
            (rw (found, resend_range)
              (answer-state begin messages (record s { message_store = some store' })))
    ]
  ]

  pub handle_resend_request-state :
      (msg : ParsedMessage) (s : Session S) → HasState s.state (handle_resend_request ops now msg s)
  unfolding handle_resend_request
  handle_resend_request-state msg s = elim (Option-cases (get_int msg 7)) [
    | inl missing ↦ rw (missing, handle_resend_request) refl
    | inr (begin, first) ↦ elim (Option-cases (get_int msg 16)) [
      | inl missing ↦ rw (first, handle_resend_request) (rw (missing, handle_resend_request) refl)
      | inr (end, last) ↦
          rw (first, handle_resend_request)
            (rw (last, handle_resend_request)
              (resend_range-state (cast_u32 begin) (cast_u32 end) _))
    ]
  ]

  pub handle_sequence_reset-state :
      (msg : ParsedMessage) (s : Session S) → (handle_sequence_reset ops now msg s).state ≡ s.state
  unfolding handle_sequence_reset renumber
  handle_sequence_reset-state msg s = ground (
    arith,
    send_reject-state ops now msg.header.msg_seq_num (pos 5) (pos 36) (new_seq_no_too_low ops now)
        (record s { stats = record (s.stats) { sequence_resets = s.stats.sequence_resets + 1 } }),
  )

  pub handle_test_request-state :
      (msg : ParsedMessage) (s : Session S) → (handle_test_request ops now msg s).state ≡ s.state
  unfolding handle_test_request
  handle_test_request-state msg s = send_built-state ops now _ s

  pub handle_heartbeat-state :
      (msg : ParsedMessage) (s : Session S) → (handle_heartbeat ops now msg s).state ≡ s.state
  unfolding handle_heartbeat
  handle_heartbeat-state msg s = refl

  pub handle_reject-state :
      (msg : ParsedMessage) (s : Session S) → (handle_reject ops now msg s).state ≡ s.state
  unfolding handle_reject
  handle_reject-state msg s = notify-state _ _ s
