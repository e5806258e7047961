-- ===== src/Session/Manager/Timer.antt =====
-- What a tick of the timer does to the state.
use nexus_fix.Base.{ℕ, ◌+◌, ◌*◌, ◌<◌, ◌≡◌, [], arith, leb, if◌then◌else◌}
use nexus_fix.Base.Words.{pos}
use nexus_fix.Session.Context.{Session, Instant}
use nexus_fix.Session.Heartbeat.{has_timed_out}
use nexus_fix.Session.Manager.{on_timer_tick}
use nexus_fix.Session.Sending.States.{
  transition-state, send_heartbeat-state, send_test_request-state,
}
use nexus_fix.Session.State.{SessionState, SessionEvent, next_state}
use nexus_fix.Store.Interface.{IMessageStore}

module _ {S : Type 0} (ops : IMessageStore S) (now : Instant) (s : Session S) where
  -- A tick of the timer in the active state, with a heartbeat interval of `n` seconds, `n`
  -- positive: the session goes to the error state exactly when nothing was received for two
  -- intervals, and stays active otherwise.
  pub on_timer_tick-state :
      (n : ℕ)
      → s.state ≡ SessionState.active
      → s.heartbeat_timer.interval ≡ pos n
      → 0 < n
      → (on_timer_tick ops now s).state ≡ (
          if leb (s.heartbeat_timer.last_received + n * 2_000_000_000) now.steady
          then SessionState.error
          else SessionState.active)
  unfolding on_timer_tick has_timed_out next_state
  on_timer_tick-state n a i p = ground (
    arith,
    transition-state SessionEvent.heartbeat_timeout s,
    send_test_request-state ops now s,
    send_heartbeat-state ops now [] s,
  )
