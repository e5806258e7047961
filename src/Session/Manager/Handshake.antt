-- ===== src/Session/Manager/Handshake.antt =====
-- No list of calls makes a session active without a connection and a Logon message after it.
use nexus_fix.Base.{
  ◌≡◌, refl, sym, ap, ◌∙◌, inl, inr, Bool, true, false, not, ◌&&◌, ◌||◌, List, [], ◌∷◌, ◌++◌,
  Option, none, some, arith, if◌then◌else◌, Bytes, Bool-cases, Option-cases, any, all,
}
use nexus_fix.Messages.Assembler.{MessageAssembler}
use nexus_fix.Messages.Fix44.{Envelope, build_logon, build_logout}
use nexus_fix.Base.Words.{pos}
use nexus_fix.Session.Admin.{is_state}
use nexus_fix.Session.Context.{Session, Instant}
use nexus_fix.Session.Heartbeat.{has_timed_out}
use nexus_fix.Session.Manager.Calls.{
  Call, connect, disconnect, logon, tick, logout, send, receive, connects, brings_logon, make,
  make_all,
}
use nexus_fix.Session.Manager.Moves.{
  permits, Moves, MovesTo, stays, moves, pick_session, run-append,
}
use nexus_fix.Session.Manager.Receive.{on_data_received-MovesTo}
use nexus_fix.Session.Manager.{
  on_connect, on_disconnect, logon_sequences, initiate_logon, initiate_logout, send_app_message,
  on_timer_tick,
}
use nexus_fix.Session.Sending.{transition, send_built}
use nexus_fix.Session.Sending.States.{
  transition-state, send_built-state, send_heartbeat-state, send_test_request-state,
}
use nexus_fix.Session.State.Handshake.{
  is_connect, is_logon_received, has_handshake, has_handshake-any, active_needs_handshake,
}
use nexus_fix.Session.State.{SessionState, SessionEvent, run, can_send_app_messages}
use nexus_fix.Store.Interface.{IMessageStore}

-- The events of a call that connects, or of one that does not and may bring a Logon message.
abbrev raised : Bool → Bool → SessionEvent → Bool
raised k l e = if k then is_connect e else permits l e

-- The events that a call may raise.
abbrev raises : Call → SessionEvent → Bool
raises c e = raised (connects c) (brings_logon c) e

abbrev pub some_logon : List (Instant × Call) → Bool
some_logon [] = false
some_logon ((now, c) ∷ cs) = brings_logon c || some_logon cs

-- A connection, and a Logon message after it.
abbrev pub has_logon_after_connect : List (Instant × Call) → Bool
has_logon_after_connect [] = false
has_logon_after_connect ((now, c) ∷ cs) =
    if connects c then some_logon cs else has_logon_after_connect cs

exclusive : (e : SessionEvent) → is_connect e && is_logon_received e ≡ false
exclusive SessionEvent.connect = refl
exclusive _ = refl

step_logon :
    (k l : Bool) (es fs : List SessionEvent)
    → all (raised k l) es ≡ true
    → any is_logon_received (es ++ fs) ≡ true
    → (not k && l) || any is_logon_received fs ≡ true
unfolding all any
step_logon k l [] fs h a = ground arith
step_logon k l (e ∷ es) fs h a = ground (arith, step_logon k l es fs, exclusive e)

step_handshake :
    (k l : Bool) (es fs : List SessionEvent)
    → all (raised k l) es ≡ true
    → has_handshake (es ++ fs) ≡ true
    → (if k then any is_logon_received fs else has_handshake fs) ≡ true
unfolding all any
step_handshake k l [] fs h a = ground (arith, has_handshake-any fs)
step_handshake k l (e ∷ es) fs h a =
    ground (arith, step_handshake k l es fs, step_logon k l es fs, exclusive e)

-- The calls a list of events stands for.
record Explains (cs : List (Instant × Call)) (es : List SessionEvent) : Type 0 where
  logons : any is_logon_received es ≡ true → some_logon cs ≡ true
  handshakes : has_handshake es ≡ true → has_logon_after_connect cs ≡ true

explain_call :
    (now : Instant) (c : Call) (cs : List (Instant × Call)) (es fs : List SessionEvent)
    → all (raises c) es ≡ true
    → Explains cs fs
    → Explains ((now, c) ∷ cs) (es ++ fs)
explain_call now c cs es fs h v = record {
  logons = λ a. ground (arith, step_logon (connects c) (brings_logon c) es fs h a, v.logons);
  handshakes = λ a.
      ground
        (arith, step_handshake (connects c) (brings_logon c) es fs h a, v.logons, v.handshakes);
}

module _ {S : Type 0} (ops : IMessageStore S) (now : Instant) where
  -- A method that sends a message and, if it was sent, raises an event.
  sent_then-Moves :
      (p : SessionEvent → Bool) (build : MessageAssembler → Envelope → MessageAssembler)
      (e : SessionEvent) (s : Session S)
      → p e ≡ true
      → Moves p s.state
          (if (send_built ops now build s).0
            then transition e (send_built ops now build s).1
            else (send_built ops now build s).1).state
  sent_then-Moves p build e s h =
      pick_session p s.state (send_built ops now build s).0
        (transition e (send_built ops now build s).1) _
        (λ _. moves p _ _ e h (
          transition-state e (send_built ops now build s).1
          ∙ rw (send_built-state ops now build s)))
        (λ _. stays p _ _ (send_built-state ops now build s))

  initiate_logon-Moves :
      (s : Session S) → Moves (permits false) s.state (initiate_logon ops now s).1.state
  unfolding initiate_logon
  initiate_logon-Moves s =
      let build = λ (a : MessageAssembler) (e : Envelope).
        build_logon a e (pos 0) s.config.heart_bt_int s.config.reset_seq_num_on_logon [] [] in
      let numbered = record s { sequences = logon_sequences ops now s } in
      let moved = sent_then-Moves (permits false) build SessionEvent.logon_sent numbered refl in
      elim (Bool-cases (is_state SessionState.socket_connected s)) [
        | inl ready ↦ elim (Bool-cases (send_built ops now build numbered).0) [
          | inl accepted ↦ rw ready (rw accepted (rw accepted at moved))
          | inr refused ↦ rw ready (rw refused (rw refused at moved))
        ]
        | inr other ↦ rw other (stays (permits false) _ _ refl)
      ]

  initiate_logout-Moves :
      (text : Bytes) (s : Session S)
      → Moves (permits false) s.state (initiate_logout ops now text s).1.state
  unfolding initiate_logout
  initiate_logout-Moves text s =
      let build = λ (a : MessageAssembler) (e : Envelope). build_logout a e text in
      let moved = sent_then-Moves (permits false) build SessionEvent.logout_sent s refl in
      elim (Bool-cases (is_state SessionState.active s)) [
        | inl ready ↦ elim (Bool-cases (send_built ops now build s).0) [
          | inl accepted ↦ rw ready (rw accepted (rw accepted at moved))
          | inr refused ↦ rw ready (rw refused (rw refused at moved))
        ]
        | inr other ↦ rw other (stays (permits false) _ _ refl)
      ]

  send_app_message-Moves :
      (build : MessageAssembler → Envelope → MessageAssembler) (s : Session S)
      → Moves (permits false) s.state (send_app_message ops now build s).1.state
  unfolding send_app_message
  send_app_message-Moves build s =
      stays (permits false) _ _ (elim (Bool-cases (can_send_app_messages s.state)) [
        | inl ready ↦ rw ready (send_built-state ops now build s)
        | inr other ↦ rw other refl
      ])

  on_timer_tick-Moves :
      (s : Session S) → Moves (permits false) s.state (on_timer_tick ops now s).state
  unfolding on_timer_tick
  on_timer_tick-Moves s =
      let quiet = permits false in
      pick_session quiet s.state (not (is_state SessionState.active s)) s _
        (λ e. stays quiet _ _ refl)
        (λ e.
          pick_session quiet s.state (has_timed_out s.heartbeat_timer now.steady)
            (transition SessionEvent.heartbeat_timeout s) _
            (λ e. moves quiet _ _ SessionEvent.heartbeat_timeout refl (transition-state _ s))
            (λ e. stays quiet _ _ (
              ground
                (arith, send_test_request-state ops now s, send_heartbeat-state ops now [] s))))

  make-MovesTo : (c : Call) (s : Session S) → MovesTo (raises c) s.state (make ops now c s)
  unfolding make on_connect on_disconnect
  make-MovesTo connect s = moves is_connect _ _ SessionEvent.connect refl (transition-state _ s)
  make-MovesTo disconnect s =
      moves (permits false) _ _ SessionEvent.disconnect refl (transition-state _ s)
  make-MovesTo logon s = initiate_logon-Moves s
  make-MovesTo tick s = on_timer_tick-Moves s
  make-MovesTo (logout text) s = initiate_logout-Moves text s
  make-MovesTo (send build) s = send_app_message-Moves build s
  make-MovesTo (receive bytes) s = on_data_received-MovesTo ops now bytes s

module _ {S : Type 0} (ops : IMessageStore S) where
  make_all-events :
      (cs : List (Instant × Call)) (s s' : Session S)
      → make_all ops cs s ≡ some s'
      → (es : List SessionEvent) × (s'.state ≡ run s.state es) × Explains cs es
  unfolding make_all run any
  make_all-events [] s s' h = (
    [],
    ap (λ (x : Option (Session S)). elim x [ none ↦ s.state | some y ↦ y.state ]) (sym h),
    record { logons = λ a. a; handshakes = λ a. a },
  )
  make_all-events ((now, c) ∷ cs) s s' h = elim (Option-cases (make ops now c s)) [
    | inl endless ↦ absurd (ground (arith, (rw (endless, make_all) at h)))
    | inr (t, made) ↦
        let (es, e, p) : Moves (raises c) s.state t.state = rw made at (make-MovesTo ops now c s) in
        let (fs, f, v) = make_all-events cs t s' (rw (made, make_all) at h) in
        (
          es ++ fs,
          f ∙ ap (λ x. run x fs) e ∙ sym (run-append es fs s.state),
          explain_call now c cs es fs p v,
        )
  ]

  -- A session that starts disconnected, whatever its configuration, its callbacks, its store
  -- and the calls made on it, is active after these calls only if a connection was among them,
  -- and after it data that parses as a Logon message.
  pub calls_need_handshake :
      (cs : List (Instant × Call)) (s s' : Session S)
      → s.state ≡ SessionState.disconnected
      → make_all ops cs s ≡ some s'
      → s'.state ≡ SessionState.active
      → has_logon_after_connect cs ≡ true
  calls_need_handshake cs s s' d h a =
      let (es, e, v) = make_all-events cs s s' h in
      v.handshakes (active_needs_handshake es (ap (λ x. run x es) (sym d) ∙ sym e ∙ a))
