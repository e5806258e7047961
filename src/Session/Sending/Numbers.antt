-- ===== src/Session/Sending/Numbers.antt =====
-- What sending does to the sequence numbers and to the store.
use nexus_fix.Base.{◌≡◌, arith, Bytes}
use nexus_fix.Session.Context.{Session, Instant}
use nexus_fix.Session.Sending.{transmit, sent_seq_num}
use nexus_fix.Session.Sequence.Numbering.{IsNumbered}
use nexus_fix.Session.Sequence.{SequenceManager, next_outbound}

-- `transmit` touches neither the numbers, nor the store, nor the configuration.
pub transmit-kept :
    {S : Type 0} (now : Instant) (msg : Bytes) (s : Session S)
    → ((transmit now msg s).1.sequences ≡ s.sequences)
      × ((transmit now msg s).1.message_store ≡ s.message_store)
unfolding transmit
transmit-kept now msg s = (ground arith, ground arith)

-- The number of the message just sent is found from the number of the next one.
pub sent_seq_num-next_outbound :
    (m : SequenceManager)
    → IsNumbered m
    → sent_seq_num (next_outbound m).1.next_outbound ≡ m.next_outbound
unfolding next_outbound
sent_seq_num-next_outbound m v = ground arith
