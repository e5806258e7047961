-- ===== src/Session/Sending/Kept.antt =====
-- What no sending changes: the configuration, the callbacks, the expected number, and the messages
-- given to the application.
use nexus_fix.Base.{◌≡◌, refl, ◌∙◌, inl, inr, List, [], ◌∷◌, arith, Bytes, Bool-cases}
use nexus_fix.Messages.Assembler.{MessageAssembler}
use nexus_fix.Messages.Fix44.{Envelope}
use nexus_fix.Parser.Message.{ParsedMessage}
use nexus_fix.Session.Context.{Session, Effect, app_message, Instant}
use nexus_fix.Session.Sending.{transmit, keep_copy, send_message, build_next, send_built}
use nexus_fix.Session.Sequence.{next_outbound, rollback_outbound}
use nexus_fix.Store.Interface.{IMessageStore}

-- The messages that the application has been given, the newest first.
unfoldable pub app_messages : List Effect → List ParsedMessage
app_messages [] = []
app_messages (app_message msg ∷ es) = msg ∷ app_messages es
app_messages (_ ∷ es) = app_messages es

pub record Kept {S : Type 0} (s s' : Session S) : Type 0 where
  pub config : s'.config ≡ s.config
  pub state : s'.state ≡ s.state
  pub callbacks : s'.callbacks ≡ s.callbacks
  pub expected : s'.sequences.expected_inbound ≡ s.sequences.expected_inbound
  pub delivered : app_messages s'.trace ≡ app_messages s.trace

pub Kept-refl : {S : Type 0} (s : Session S) → Kept s s
Kept-refl s = record {
  config = refl;
  state = refl;
  callbacks = refl;
  expected = refl;
  delivered = refl;
}

Kept-trans : {S : Type 0} (a b c : Session S) → Kept a b → Kept b c → Kept a c
Kept-trans a b c k l = record {
  config = l.config ∙ k.config;
  state = l.state ∙ k.state;
  callbacks = l.callbacks ∙ k.callbacks;
  expected = l.expected ∙ k.expected;
  delivered = l.delivered ∙ k.delivered;
}

module _ {S : Type 0} (ops : IMessageStore S) (now : Instant) where
  transmit-Kept : (msg : Bytes) (s : Session S) → Kept s (transmit now msg s).1
  unfolding transmit app_messages
  transmit-Kept msg s = record {
    config = ground arith;
    state = ground arith;
    callbacks = ground arith;
    expected = ground arith;
    delivered = ground arith;
  }

  keep_copy-Kept : (msg : Bytes) (s : Session S) → Kept s (keep_copy ops now msg s)
  unfolding keep_copy
  keep_copy-Kept msg s = record {
    config = ground arith;
    state = ground arith;
    callbacks = ground arith;
    expected = ground arith;
    delivered = ground arith;
  }

  rollback-Kept : (s : Session S) → Kept s (record s { sequences = rollback_outbound s.sequences })
  unfolding rollback_outbound
  rollback-Kept s = record {
    config = refl;
    state = refl;
    callbacks = refl;
    expected = refl;
    delivered = refl;
  }

  send_message-Kept : (msg : Bytes) (s : Session S) → Kept s (send_message ops now msg s).1
  unfolding send_message
  send_message-Kept msg s = elim (Bool-cases (transmit now msg s).0) [
    | inl accepted ↦
        rw accepted
          (Kept-trans s (transmit now msg s).1 _ (transmit-Kept msg s) (keep_copy-Kept msg _))
    | inr refused ↦
        rw refused (Kept-trans s (transmit now msg s).1 _ (transmit-Kept msg s) (rollback-Kept _))
  ]

  pub send_built-Kept :
      (build : MessageAssembler → Envelope → MessageAssembler) (s : Session S)
      → Kept s (send_built ops now build s).1
  unfolding send_built next_outbound
  send_built-Kept build s =
      Kept-trans s (build_next ops now build s) _
        (record {
          config = refl;
          state = refl;
          callbacks = refl;
          expected = refl;
          delivered = refl;
        })
        (send_message-Kept _ (build_next ops now build s))
