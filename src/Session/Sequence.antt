-- ===== src/Session/Sequence.antt =====
-- include/nexusfix/session/sequence.hpp, class SequenceManager: the numbers of the next message to
-- send and of the next one expected. The fields are atomics that one session thread reads and
-- writes, so a plain record stands for them.
pub mod Numbering
use nexus_fix.Base.{ℕ, ◌+◌, ◌-◌, ◌^◌, Bool, leb, ltb, ◌==◌, if◌then◌else◌}
use nexus_fix.Base.Words.{wrap32}

abbrev pub initial_seq_num : ℕ
initial_seq_num = 1

-- `SeqNum::MAX_VALUE`.
abbrev pub max_seq_num : ℕ
max_seq_num = 2147483647

pub data SequenceResult : Type 0 where
  in_order gap_detected too_low : SequenceResult

pub record SequenceManager : Type 0 where
  pub next_outbound : ℕ
  pub expected_inbound : ℕ

abbrev pub fresh_sequences : SequenceManager
fresh_sequences = record { next_outbound = initial_seq_num; expected_inbound = initial_seq_num }

-- The number to send under, and the manager with the number after it.
unfoldable pub next_outbound : SequenceManager → ℕ × SequenceManager
next_outbound m =
    let seq = m.next_outbound in
    (
      seq,
      record m {
        next_outbound = if leb max_seq_num seq then initial_seq_num else wrap32 (seq + 1);
      },
    )

abbrev pub current_outbound : SequenceManager → ℕ
current_outbound m = m.next_outbound

unfoldable pub set_outbound : SequenceManager → ℕ → SequenceManager
set_outbound m seq = record m { next_outbound = seq }

unfoldable pub rollback_outbound : SequenceManager → SequenceManager
rollback_outbound m =
    let current = m.next_outbound in
    record m { next_outbound = if leb current initial_seq_num then max_seq_num else current - 1 }

unfoldable pub validate_inbound : SequenceManager → ℕ → SequenceResult × SequenceManager
validate_inbound m received =
    if received == m.expected_inbound
    then (in_order, record m { expected_inbound = wrap32 (m.expected_inbound + 1) })
    else if ltb m.expected_inbound received
    then (gap_detected, m)
    else (too_low, m)

unfoldable pub set_inbound : SequenceManager → ℕ → SequenceManager
set_inbound m seq = record m { expected_inbound = seq }

unfoldable pub reset : SequenceManager → SequenceManager
reset m = record { next_outbound = initial_seq_num; expected_inbound = initial_seq_num }

unfoldable pub has_gap : SequenceManager → ℕ → Bool
has_gap m received = ltb m.expected_inbound received

-- The first and the last missing number, or (0, 0).
unfoldable pub gap_range : SequenceManager → ℕ → ℕ × ℕ
gap_range m received =
    if ltb m.expected_inbound received then (m.expected_inbound, received - 1) else (0, 0)
