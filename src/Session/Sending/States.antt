-- ===== src/Session/Sending/States.antt =====
-- What sending leaves alone, and how a transition moves the state: by the table, and with a call of
-- the state callback exactly when the state is another one.
use nexus_fix.Base.{ℕ, ◌≡◌, refl, ◌∙◌, inl, inr, Bool, true, false, arith, Bytes, Bool-cases}
use nexus_fix.Base.Words.{ℤ}
use nexus_fix.Messages.Assembler.{MessageAssembler}
use nexus_fix.Messages.Fix44.{
  Envelope, build_heartbeat, build_logout, build_reject, build_test_request,
}
use nexus_fix.Session.Context.{Session, Effect, Instant, notify}
use nexus_fix.Session.Sending.{
  transition, transmit, send_message, keep_copy, build_next, send_built, send_heartbeat,
  send_test_request, send_reject, send_logout_and_disconnect, test_request_id,
}
use nexus_fix.Session.State.{SessionState, SessionEvent, state_index, next_state}
use nexus_fix.Store.Interface.{IMessageStore}

pub state_index-injective : (a b : SessionState) → state_index a ≡ state_index b → a ≡ b
state_index-injective SessionState.disconnected b e = ground arith
state_index-injective _ b e = ground arith

pub notify-state :
    {S : Type 0} (on : Bool) (e : Effect) (s : Session S) → (notify on e s).state ≡ s.state
notify-state true e s = refl
notify-state false e s = refl

pub transition-state :
    {S : Type 0} (event : SessionEvent) (s : Session S)
    → (transition event s).state ≡ next_state s.state event
unfolding transition
transition-state event s = ground (arith, state_index-injective (next_state s.state event) s.state)

pub transmit-state :
    {S : Type 0} (now : Instant) (msg : Bytes) (s : Session S)
    → (transmit now msg s).1.state ≡ s.state
unfolding transmit
transmit-state now msg s = ground arith

module _ {S : Type 0} (ops : IMessageStore S) (now : Instant) where
  keep_copy-state : (msg : Bytes) (s : Session S) → (keep_copy ops now msg s).state ≡ s.state
  unfolding keep_copy
  keep_copy-state msg s = ground arith

  send_message-state :
      (msg : Bytes) (s : Session S) → (send_message ops now msg s).1.state ≡ s.state
  unfolding send_message
  send_message-state msg s = elim (Bool-cases (transmit now msg s).0) [
    | inl accepted ↦ rw accepted (keep_copy-state msg _ ∙ transmit-state now msg s)
    | inr refused ↦ rw refused (transmit-state now msg s)
  ]

  pub send_built-state :
      (build : MessageAssembler → Envelope → MessageAssembler) (s : Session S)
      → (send_built ops now build s).1.state ≡ s.state
  unfolding send_built
  send_built-state build s = send_message-state _ (build_next ops now build s)

  pub send_heartbeat-state :
      (id : Bytes) (s : Session S) → (send_heartbeat ops now id s).state ≡ s.state
  unfolding send_heartbeat
  send_heartbeat-state id s = ground (arith, send_built-state (λ a e. build_heartbeat a e id) s)

  pub send_test_request-state : (s : Session S) → (send_test_request ops now s).state ≡ s.state
  unfolding send_test_request
  send_test_request-state s =
      ground (arith, send_built-state (λ a e. build_test_request a e (test_request_id ops now s)) s)

  pub send_reject-state :
      (seq : ℕ) (reason tag : ℤ) (text : Bytes) (s : Session S)
      → (send_reject ops now seq reason tag text s).state ≡ s.state
  unfolding send_reject
  send_reject-state seq reason tag text s =
      ground (arith, send_built-state (λ a e. build_reject a e seq tag reason text) s)

  pub send_logout_and_disconnect-state :
      (reason : Bytes) (s : Session S)
      → (send_logout_and_disconnect ops now reason s).state
        ≡ next_state s.state SessionEvent.disconnect
  unfolding send_logout_and_disconnect
  send_logout_and_disconnect-state reason s =
      let sent = send_built ops now (λ a e. build_logout a e reason) s in
      notify-state _ _ (transition SessionEvent.disconnect sent.1)
      ∙ transition-state SessionEvent.disconnect sent.1
      ∙ rw (send_built-state (λ a e. build_logout a e reason) s)
