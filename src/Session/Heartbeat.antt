-- ===== src/Session/Heartbeat.antt =====
-- include/nexusfix/session/session_manager.hpp, class HeartbeatTimer. Instants are nanoseconds of
-- the steady clock, read by the caller; the interval is a count of seconds, which a counterparty's
-- logon may set to any `int`.
pub mod Deadlines
use nexus_fix.Base.{ℕ, ◌+◌, ◌-◌, ◌*◌, ◌/◌, Bool, true, false, if◌then◌else◌}
use nexus_fix.Base.Words.{ℤ, pos, negsuc, reaches}

pub record HeartbeatTimer : Type 0 where
  pub interval : ℤ
  pub last_sent : ℕ
  pub last_received : ℕ
  pub test_request_pending : Bool

abbrev pub nanos_per_second : ℕ
nanos_per_second = 1_000_000_000

abbrev pub nanos_per_milli : ℕ
nanos_per_milli = 1_000_000

unfoldable pub new_timer : ℤ → ℕ → HeartbeatTimer
new_timer seconds now = record {
  interval = seconds;
  last_sent = now;
  last_received = now;
  test_request_pending = false;
}

unfoldable pub message_sent : HeartbeatTimer → ℕ → HeartbeatTimer
message_sent t now = record t { last_sent = now }

unfoldable pub message_received : HeartbeatTimer → ℕ → HeartbeatTimer
message_received t now = record t { last_received = now; test_request_pending = false }

unfoldable pub should_send_heartbeat : HeartbeatTimer → ℕ → Bool
should_send_heartbeat t now = reaches ((now - t.last_sent) / nanos_per_second) t.interval

-- `duration_cast<Millis>(interval_) * 3 / 2`
abbrev pub test_request_threshold : ℤ → ℤ
test_request_threshold (pos n) = pos (n * 1000 * 3 / 2)
test_request_threshold (negsuc n) = negsuc (n * 1500 + 1499)

unfoldable pub should_send_test_request : HeartbeatTimer → ℕ → Bool
should_send_test_request t now =
    if t.test_request_pending
    then false
    else reaches ((now - t.last_received) / nanos_per_milli) (test_request_threshold t.interval)

-- `interval_ * 2`
abbrev pub timeout_threshold : ℤ → ℤ
timeout_threshold (pos n) = pos (n * 2)
timeout_threshold (negsuc n) = negsuc (n * 2 + 1)

unfoldable pub has_timed_out : HeartbeatTimer → ℕ → Bool
has_timed_out t now =
    reaches ((now - t.last_received) / nanos_per_second) (timeout_threshold t.interval)

unfoldable pub test_request_sent : HeartbeatTimer → HeartbeatTimer
test_request_sent t = record t { test_request_pending = true }

unfoldable pub set_interval : HeartbeatTimer → ℤ → HeartbeatTimer
set_interval t seconds = record t { interval = seconds }

unfoldable pub reset : HeartbeatTimer → ℕ → HeartbeatTimer
reset t now = record t { last_sent = now; last_received = now; test_request_pending = false }
