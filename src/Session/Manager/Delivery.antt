-- ===== src/Session/Manager/Delivery.antt =====
-- Which messages `process` gives to the application, and how it counts on.
use nexus_fix.Base.{
  ℕ, ◌+◌, ◌≡◌, ◌<◌, ◌⊎◌, refl, ap, ◌∙◌, inl, inr, true, false, not, ◌||◌, List, ◌∷◌, Option, some,
  arith, leb, ◌==◌, if◌then◌else◌, Bool-cases,
}
use nexus_fix.Base.Words.{wrap32}
use nexus_fix.Types.{is_admin}
use nexus_fix.Parser.Message.{ParsedMessage}
use nexus_fix.Session.Context.{Session, app_message, Instant}
use nexus_fix.Session.Manager.{
  handle_sequence_gap, handle_sequence_error, handle_app_message, save_target, route, process,
}
use nexus_fix.Session.Sending.Kept.{app_messages, Kept, Kept-refl, send_built-Kept}
use nexus_fix.Session.Sequence.{
  SequenceManager, SequenceResult, in_order, gap_detected, too_low, validate_inbound,
}
use nexus_fix.Store.Interface.{IMessageStore}

-- The manager after a number that is in order.
abbrev advanced : SequenceManager → SequenceManager
advanced m = record m { expected_inbound = wrap32 (m.expected_inbound + 1) }

abbrev IsResult : SequenceManager → ℕ → SequenceResult → SequenceManager → Type 0
IsResult m received verdict m' = validate_inbound m received ≡ (verdict, m')

validate_inbound-cases :
    (m : SequenceManager) (received : ℕ)
    → ((received ≡ m.expected_inbound) × IsResult m received in_order (advanced m))
      ⊎ ((m.expected_inbound < received) × IsResult m received gap_detected m)
      ⊎ ((received < m.expected_inbound) × IsResult m received too_low m)
unfolding validate_inbound
validate_inbound-cases m received = ground arith

module _ {S : Type 0} (ops : IMessageStore S) (now : Instant) where
  -- `process` behind its call of `validate_inbound`.
  abbrev follow : ParsedMessage → Session S → SequenceResult × SequenceManager → Option (Session S)
  follow msg s (verdict, m) =
      let received = msg.header.msg_seq_num in
      let checked = record s { sequences = m } in
      elim verdict [
        | in_order ↦ route ops now msg (save_target ops now checked)
        | gap_detected ↦ route ops now msg (handle_sequence_gap ops now received checked)
        | too_low ↦
            if not msg.header.poss_dup_flag
            then some (handle_sequence_error ops now received checked)
            else route ops now msg checked
      ]

  save_target-Kept : (s : Session S) → Kept s (save_target ops now s)
  save_target-Kept s = record {
    config = ground arith;
    state = ground arith;
    callbacks = ground arith;
    expected = ground arith;
    delivered = ground arith;
  }

  handle_sequence_gap-Kept :
      (received : ℕ) (s : Session S) → Kept s (handle_sequence_gap ops now received s)
  unfolding handle_sequence_gap
  handle_sequence_gap-Kept received s = send_built-Kept ops now _ s

  handle_sequence_error-Kept :
      (received : ℕ) (s : Session S) → Kept s (handle_sequence_error ops now received s)
  unfolding handle_sequence_error app_messages
  handle_sequence_error-Kept received s = record {
    config = ground arith;
    state = ground arith;
    callbacks = ground arith;
    expected = ground arith;
    delivered = ground arith;
  }

  -- A session `s'` that went on from `s`, after which the application has been given `ms`.
  abbrev Delivers : Session S → List ParsedMessage → Option (Session S) → Type 0
  Delivers s ms r =
      (s' : Session S) × (r ≡ some s')
      × (s'.state ≡ s.state)
      × (s'.sequences.expected_inbound ≡ s.sequences.expected_inbound)
      × (app_messages s'.trace ≡ ms)

  route-Delivers :
      (msg : ParsedMessage) (s t : Session S)
      → is_admin msg.header.msg_type ≡ false
      → s.callbacks.on_app_message ≡ true
      → Kept s t
      → Delivers s (msg ∷ app_messages s.trace) (route ops now msg t)
  unfolding route handle_app_message app_messages
  route-Delivers msg s t a c k =
      let on : t.callbacks.on_app_message ≡ true = ap (λ x. x.on_app_message) k.callbacks ∙ c in
      (
        record t { trace = app_message msg ∷ t.trace },
        rw a (rw on refl),
        k.state,
        k.expected,
        ap (λ ms. msg ∷ ms) k.delivered,
      )

  -- A message whose type is none of the session level's, read by a session whose application
  -- callback is set, always comes back from `process`, which leaves the state alone. The
  -- message, as it was parsed, is added once to the messages given to the application if its
  -- number is the expected one or a later one, or if it is flagged as a possible duplicate;
  -- otherwise the application is given nothing; and only the expected number moves the expected
  -- number on, by one, modulo 2^32.
  pub process-delivery :
      (msg : ParsedMessage) (s : Session S)
      → is_admin msg.header.msg_type ≡ false
      → s.callbacks.on_app_message ≡ true
      → (s' : Session S) × (process ops now msg s ≡ some s')
        × (s'.state ≡ s.state)
        × (s'.sequences.expected_inbound ≡ (
            if msg.header.msg_seq_num == s.sequences.expected_inbound
            then wrap32 (s.sequences.expected_inbound + 1)
            else s.sequences.expected_inbound))
        × (app_messages s'.trace ≡ (
            if leb s.sequences.expected_inbound msg.header.msg_seq_num || msg.header.poss_dup_flag
            then msg ∷ app_messages s.trace
            else app_messages s.trace))
  unfolding process
  process-delivery msg s a c =
      let received = msg.header.msg_seq_num in
      elim (validate_inbound-cases s.sequences received) [
        | inl (same, v) ↦
            let t = record s { sequences = advanced s.sequences } in
            let (s', r, st, ex, n) =
              route-Delivers msg t (save_target ops now t) a c (save_target-Kept t) in
            (s', ap (follow msg s) v ∙ r, st, ground (arith, ex), ground (arith, n))
        | inr (inl (later, v)) ↦
            let (s', r, st, ex, n) =
              route-Delivers msg s (handle_sequence_gap ops now received s) a c
                (handle_sequence_gap-Kept received s) in
            (s', ap (follow msg s) v ∙ r, st, ground (arith, ex), ground (arith, n))
        | inr (inr (earlier, v)) ↦ elim (Bool-cases (not msg.header.poss_dup_flag)) [
          | inl new ↦
              let k = handle_sequence_error-Kept received s in
              (
                handle_sequence_error ops now received s,
                ap (follow msg s) v ∙ rw new refl,
                k.state,
                ground (arith, k.expected),
                ground (arith, k.delivered),
              )
          | inr old ↦
              let (s', r, st, ex, n) = route-Delivers msg s s a c (Kept-refl s) in
              (s', ap (follow msg s) v ∙ rw old r, st, ground (arith, ex), ground (arith, n))
        ]
      ]
