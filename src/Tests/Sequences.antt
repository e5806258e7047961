-- ===== src/Tests/Sequences.antt =====
-- Numbers, gaps, timers and states: include/nexusfix/session/sequence.hpp, state.hpp and the timer of
-- session_manager.hpp.
use nexus_fix.Base.{◌≤◌, ◌≡◌, refl, inl, true, false, ◌||◌, not, List, [], ◌∷◌, some, length, arith}
use nexus_fix.Base.Words.{pos}
use nexus_fix.Session.Gaps.Fill.{fill_correct, add_gap-covers}
use nexus_fix.Session.Gaps.Slots.{covers}
use nexus_fix.Session.Gaps.{GapTracker, max_gaps, add_gap, fill, fill_loop, fill_round, remove_gap}
use nexus_fix.Session.Heartbeat.Deadlines.{no_interval_timed_out}
use nexus_fix.Session.Heartbeat.{
  HeartbeatTimer, new_timer, message_sent, message_received, should_send_heartbeat, has_timed_out,
}
use nexus_fix.Session.Sequence.Numbering.{
  IsNumbered, deliver, Accepts, deliver-Accepts, wrap_too_low,
}
use nexus_fix.Session.Sequence.{SequenceManager, fresh_sequences, in_order, too_low}
use nexus_fix.Session.State.Handshake.{has_handshake, active_needs_handshake}
use nexus_fix.Session.State.{SessionEvent, next_state, run}

abbrev busy : SequenceManager
busy = record { next_outbound = 7; expected_inbound = 5 }

abbrev spent : SequenceManager
spent = record { next_outbound = 2147483647; expected_inbound = 2147483647 }

fresh-IsNumbered : IsNumbered fresh_sequences
fresh-IsNumbered = record { positive = omega arith; bounded = omega arith }

busy-IsNumbered : IsNumbered busy
busy-IsNumbered = record { positive = omega arith; bounded = omega arith }

deliver-Accepts_example : Accepts 3 fresh_sequences fresh_sequences
deliver-Accepts_example =
    deliver-Accepts 3 fresh_sequences fresh_sequences fresh-IsNumbered refl (omega arith)

wrap_too_low_example :
    ((deliver (spent, spent)).0 ≡ in_order)
    × ((deliver ((deliver (spent, spent)).1, (deliver (spent, spent)).2)).0 ≡ too_low)
wrap_too_low_example = wrap_too_low spent spent refl refl

abbrev two_gaps : GapTracker
two_gaps = record {
  gaps = record { begin = 3; end = 9 } ∷ record { begin = 5; end = 5 } ∷ [];
  truncated = false;
}

fill_correct_example :
    (t' : GapTracker) × (fill two_gaps 5 ≡ some t')
    × (length t'.gaps ≤ max_gaps)
    × (covers t'.gaps 4 ≡ covers two_gaps.gaps 4)
    × ((t'.truncated || not (covers t'.gaps 5)) ≡ true)
fill_correct_example = fill_correct two_gaps 5 4 (omega arith) (λ e. omega (arith, e))

add_gap-covers_example : covers (add_gap two_gaps 12 14).1.gaps 13 ≡ true
unfolding covers
add_gap-covers_example = add_gap-covers two_gaps 12 14 13

-- The second gap is emptied and goes, the first one is split in two.
fill_splits :
    fill two_gaps 5
    ≡ some (record {
      gaps = record { begin = 3; end = 4 } ∷ record { begin = 6; end = 9 } ∷ [];
      truncated = false;
    })
unfolding fill fill_loop fill_round remove_gap
fill_splits = refl

abbrev timer : HeartbeatTimer
timer = new_timer (pos 30) 0

no_interval_timed_out_example :
    (has_timed_out (message_received (new_timer (pos 0) 0) 5) 5 ≡ true)
    × (should_send_heartbeat (message_sent (new_timer (pos 0) 0) 5) 5 ≡ true)
unfolding new_timer
no_interval_timed_out_example = no_interval_timed_out (new_timer (pos 0) 0) 5 5 (inl refl)

abbrev handshake : List SessionEvent
handshake = SessionEvent.connect ∷ SessionEvent.logon_sent ∷ SessionEvent.logon_received ∷ []

active_needs_handshake_example : has_handshake handshake ≡ true
unfolding run next_state
active_needs_handshake_example = active_needs_handshake handshake refl
