-- ===== src/Session/Sequence/Numbering.antt =====
-- What the numbers promise: outbound numbers stay in range and a failed send gives its number back;
-- a gap's range holds the missing numbers; two managers stay in step up to the largest number.
use nexus_fix.Base.{ℕ, zero, suc, ◌+◌, ◌≤◌, ◌<◌, ◌≡◌, ◌≢◌, ◌↔◌, arith}
use nexus_fix.Session.Sequence.{
  SequenceManager, SequenceResult, in_order, gap_detected, too_low, max_seq_num, next_outbound,
  rollback_outbound, validate_inbound, gap_range,
}

-- Outbound numbers run from 1 to 2^31 - 1.
pub record IsNumbered (m : SequenceManager) : Type 0 where
  pub positive : 1 ≤ m.next_outbound
  pub bounded : m.next_outbound ≤ max_seq_num

-- Taking an outbound number keeps the outbound numbers in the range from 1 to 2^31 - 1.
pub next_outbound-IsNumbered : (m : SequenceManager) → IsNumbered m → IsNumbered (next_outbound m).1
unfolding next_outbound
next_outbound-IsNumbered m v = ground arith

-- With outbound numbers in range, rolling back gives the number just taken back: the manager is
-- as it was.
pub rollback-next_outbound :
    (m : SequenceManager) → IsNumbered m → rollback_outbound (next_outbound m).1 ≡ m
unfolding next_outbound rollback_outbound
rollback-next_outbound m v = ground arith

-- When a gap is detected, the range of `gap_range` holds exactly the numbers from the expected
-- one up to the received one, without the received one.
pub gap_range-missing :
    (m : SequenceManager) (received x : ℕ)
    → (validate_inbound m received).0 ≡ gap_detected
    → (((gap_range m received).0 ≤ x) × (x ≤ (gap_range m received).1))
      ↔ ((m.expected_inbound ≤ x) × (x < received))
unfolding validate_inbound gap_range
gap_range-missing m received x h = ground arith

-- Only a message in order moves the expected number.
pub validate_inbound-unmoved :
    (m : SequenceManager) (received : ℕ)
    → (validate_inbound m received).0 ≢ in_order
    → (validate_inbound m received).1 ≡ m
unfolding validate_inbound
validate_inbound-unmoved m received h = ground arith

-- One message from `s` to `r`: the sender numbers it, the receiver checks the number.
abbrev pub deliver :
    SequenceManager × SequenceManager → SequenceResult × SequenceManager × SequenceManager
deliver (s, r) =
    let (seq, s') = next_outbound s in
    let (verdict, r') = validate_inbound r seq in (verdict, s', r')

-- The verdicts on the next `n` messages.
pub data Accepts : ℕ → SequenceManager → SequenceManager → Type 0 where
  done : {s r : SequenceManager} → Accepts zero s r
  accept :
      {n : ℕ} {s r : SequenceManager}
      → (deliver (s, r)).0 ≡ in_order
      → Accepts n (deliver (s, r)).1 (deliver (s, r)).2
      → Accepts (suc n) s r

-- A receiver that expects what the sender, whose numbers are in range, will send accepts the
-- next `n` messages in order, as long as the sender's number does not pass the largest one.
pub deliver-Accepts :
    (n : ℕ) (s r : SequenceManager)
    → IsNumbered s
    → r.expected_inbound ≡ s.next_outbound
    → s.next_outbound + n ≤ max_seq_num + 1
    → Accepts n s r
unfolding next_outbound validate_inbound
deliver-Accepts zero s r v e h = done
deliver-Accepts (suc zero) s r v e h = accept (ground arith) done
deliver-Accepts (suc (suc n)) s r v e h =
    accept (ground arith) (deliver-Accepts (suc n) _ _ (ground arith) (ground arith) (ground arith))

-- A sender at the largest number and a receiver that expects it agree on that message and not
-- on the next one: the sender starts again at 1, and the receiver finds the number too low.
pub wrap_too_low :
    (s r : SequenceManager)
    → s.next_outbound ≡ max_seq_num
    → r.expected_inbound ≡ s.next_outbound
    → ((deliver (s, r)).0 ≡ in_order)
      × ((deliver ((deliver (s, r)).1, (deliver (s, r)).2)).0 ≡ too_low)
unfolding next_outbound validate_inbound
wrap_too_low s r e h = ground arith
