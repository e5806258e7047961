-- ===== src/Session/Heartbeat/Deadlines.antt =====
-- The order of a timer's deadlines, and how each side's messages move them.
use nexus_fix.Base.{ℕ, ◌+◌, ◌*◌, ◌<◌, ◌≡◌, ◌⊎◌, true, false, leb, arith}
use nexus_fix.Base.Words.{pos, negsuc}
use nexus_fix.Session.Heartbeat.{
  HeartbeatTimer, message_sent, message_received, should_send_heartbeat, should_send_test_request,
  has_timed_out,
}

-- A timer that has timed out while no test request is pending is due for a test request at the
-- same instant.
pub timeout_after_test_request :
    (t : HeartbeatTimer) (now : ℕ)
    → has_timed_out t now ≡ true
    → t.test_request_pending ≡ false
    → should_send_test_request t now ≡ true
unfolding has_timed_out should_send_test_request
timeout_after_test_request t now h p = ground arith

-- With a positive interval of `n` seconds, a message received at `now` answers any test
-- request, puts the next test request one and a half intervals ahead, and the time-out two
-- intervals ahead.
pub received_deadlines :
    (t : HeartbeatTimer) (n now later : ℕ)
    → t.interval ≡ pos n
    → 0 < n
    → (should_send_test_request (message_received t now) later
        ≡ leb (now + n * 1_500_000_000) later)
      × (has_timed_out (message_received t now) later ≡ leb (now + n * 2_000_000_000) later)
unfolding has_timed_out should_send_test_request message_received
received_deadlines t n now later e h = (ground arith, ground arith)

-- With an interval that is not positive, the connection counts as timed out, and a heartbeat as
-- due, at every instant, whatever has just been received or sent.
pub no_interval_timed_out :
    (t : HeartbeatTimer) (now later : ℕ)
    → (t.interval ≡ pos 0) ⊎ ((n : ℕ) × (t.interval ≡ negsuc n))
    → (has_timed_out (message_received t now) later ≡ true)
      × (should_send_heartbeat (message_sent t now) later ≡ true)
unfolding has_timed_out should_send_heartbeat message_received message_sent
no_interval_timed_out t now later e = (ground arith, ground arith)
