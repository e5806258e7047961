-- ===== src/Session/Manager/Moves.antt =====
-- How each method moves the state: by events of the transition table, of which only `on_connect`
-- raises a connection and only a Logon message raises `logon_received`.
use nexus_fix.Base.{
  ◌≡◌, refl, sym, ap, ◌∙◌, inl, inr, Bool, true, false, not, ◌&&◌, ◌||◌, List, [], ◌∷◌, ◌++◌,
  Option, none, some, arith, ◌==◌, if◌then◌else◌, Bool-cases, Option-cases, all,
}
use nexus_fix.Base.Words.{pos}
use nexus_fix.Types.MsgType
use nexus_fix.Messages.Assembler.{MessageAssembler}
use nexus_fix.Messages.Fix44.{Envelope, build_logout, build_logon}
use nexus_fix.Parser.Message.{ParsedMessage, get_int}
use nexus_fix.Session.Admin.{
  is_state, accept_logon, answer_logon, handle_logon, handle_logout, handle_admin_message,
}
use nexus_fix.Session.Admin.States.{
  HasState, handle_heartbeat-state, handle_reject-state, handle_resend_request-state,
  handle_sequence_reset-state, handle_test_request-state,
}
use nexus_fix.Session.Context.{Session, Effect, Instant, notify}
use nexus_fix.Session.Sending.{transition, send_built}
use nexus_fix.Session.Sending.States.{notify-state, transition-state, send_built-state}
use nexus_fix.Session.State.Handshake.{is_connect, is_logon_received}
use nexus_fix.Session.State.{SessionState, SessionEvent, next_state, run}
use nexus_fix.Store.Interface.{IMessageStore}

-- The events that a method may raise; the flag says whether it reads a Logon message.
abbrev pub permits : Bool → SessionEvent → Bool
permits logon e = not (is_connect e) && (logon || not (is_logon_received e))

-- Permitted events lead from one state to the other.
abbrev pub Moves : (SessionEvent → Bool) → SessionState → SessionState → Type 0
Moves p a b = (es : List SessionEvent) × (b ≡ run a es) × (all p es ≡ true)

-- The same of a call that may not return.
abbrev pub MovesTo :
    {S : Type 0} → (SessionEvent → Bool) → SessionState → Option (Session S) → Type 0
MovesTo p a none = Unit {0}
MovesTo p a (some s) = Moves p a s.state

pub run-append :
    (es fs : List SessionEvent) (a : SessionState) → run a (es ++ fs) ≡ run (run a es) fs
unfolding run
run-append [] fs a = refl
run-append (e ∷ es) fs a = run-append es fs (next_state a e)

all-append :
    (p : SessionEvent → Bool) (es fs : List SessionEvent)
    → all p es ≡ true
    → all p fs ≡ true
    → all p (es ++ fs) ≡ true
unfolding all
all-append p [] fs h k = k
all-append p (e ∷ es) fs h k = ground (arith, all-append p es fs)

pub stays : (p : SessionEvent → Bool) (a b : SessionState) → b ≡ a → Moves p a b
unfolding run all
stays p a b e = ([], e, refl)

pub moves :
    (p : SessionEvent → Bool) (a b : SessionState) (e : SessionEvent)
    → p e ≡ true
    → b ≡ next_state a e
    → Moves p a b
unfolding run all
moves p a b e h k = (e ∷ [], k, ground arith)

pub then-Moves :
    (p : SessionEvent → Bool) (a b c : SessionState) → Moves p a b → Moves p b c → Moves p a c
then-Moves p a b c (es, e, h) (fs, f, k) =
    (es ++ fs, f ∙ ap (λ x. run x fs) e ∙ sym (run-append es fs a), all-append p es fs h k)

pub pick :
    {S : Type 0} (p : SessionEvent → Bool) (a : SessionState) (b : Bool) (x y : Option (Session S))
    → (b ≡ true → MovesTo p a x)
    → (b ≡ false → MovesTo p a y)
    → MovesTo p a (if b then x else y)
pick p a true x y h k = h refl
pick p a false x y h k = k refl

pub pick_session :
    {S : Type 0} (p : SessionEvent → Bool) (a : SessionState) (b : Bool) (x y : Session S)
    → (b ≡ true → Moves p a x.state)
    → (b ≡ false → Moves p a y.state)
    → Moves p a (if b then x else y).state
pick_session p a true x y h k = h refl
pick_session p a false x y h k = k refl

notify-Moves :
    {S : Type 0} (p : SessionEvent → Bool) (a : SessionState) (on : Bool) (e : Effect)
    (s : Session S)
    → Moves p a s.state
    → Moves p a (notify on e s).state
notify-Moves p a true e s h = h
notify-Moves p a false e s h = h

-- A call that stays in its state moves by no events.
HasState-MovesTo :
    {S : Type 0} (p : SessionEvent → Bool) (a : SessionState) (r : Option (Session S))
    → HasState a r
    → MovesTo p a r
HasState-MovesTo p a none h = tt
HasState-MovesTo p a (some s) h = stays p a s.state h

module _ {S : Type 0} (ops : IMessageStore S) (now : Instant) where
  accept_logon-state :
      (msg : ParsedMessage) (s : Session S)
      → (accept_logon ops now msg s).state ≡ next_state s.state SessionEvent.logon_received
  unfolding accept_logon
  accept_logon-state msg s = elim (Option-cases (get_int msg 108)) [
    | inl none_read ↦ rw (none_read, accept_logon) (notify-state _ _ _ ∙ transition-state _ s)
    | inr (v, read) ↦ rw (read, accept_logon) (notify-state _ _ _ ∙ transition-state _ _)
  ]

  answer_logon-Moves : (s : Session S) → Moves (permits true) s.state (answer_logon ops now s).state
  unfolding answer_logon
  answer_logon-Moves s =
      let received = transition SessionEvent.logon_received s in
      let build = λ (a : MessageAssembler) (e : Envelope).
        build_logon a e (pos 0) s.config.heart_bt_int false [] [] in
      let first =
        moves (permits true) s.state (send_built ops now build received).1.state
          SessionEvent.logon_received refl
          (send_built-state ops now build received ∙ transition-state _ s) in
      elim (Bool-cases (send_built ops now build received).0) [
        | inl accepted ↦ rw accepted (
            then-Moves (permits true) s.state (send_built ops now build received).1.state _ first (
              moves (permits true) _ _ SessionEvent.logon_acknowledged refl
                (notify-state _ _ _ ∙ transition-state _ _)))
        | inr refused ↦ rw refused first
      ]

  handle_logon-Moves :
      (msg : ParsedMessage) (s : Session S)
      → Moves (permits true) s.state (handle_logon ops now msg s).state
  unfolding handle_logon
  handle_logon-Moves msg s =
      pick_session (permits true) s.state (is_state SessionState.logon_sent s)
        (accept_logon ops now msg s) _
        (λ e. moves (permits true) _ _ SessionEvent.logon_received refl (accept_logon-state msg s))
        (λ e.
          pick_session (permits true) s.state (is_state SessionState.socket_connected s)
            (answer_logon ops now s) s (λ e. answer_logon-Moves s)
            (λ e. stays (permits true) _ _ refl))

  handle_logout-Moves :
      (msg : ParsedMessage) (s : Session S)
      → Moves (permits false) s.state (handle_logout ops now msg s).state
  unfolding handle_logout
  handle_logout-Moves msg s =
      let quiet = permits false in
      let received = transition SessionEvent.logout_received s in
      let build = λ (a : MessageAssembler) (e : Envelope). build_logout a e [] in
      let first =
        moves quiet s.state received.state SessionEvent.logout_received refl
          (transition-state _ s) in
      let sent = send_built ops now build received in
      let answered =
        then-Moves quiet s.state received.state sent.1.state first
          (stays quiet _ _ (send_built-state ops now build received)) in
      elim (Bool-cases (is_state SessionState.logout_pending s)) [
        | inl pending ↦ rw pending (notify-Moves quiet s.state _ _ received first)
        | inr other ↦ rw other (
            notify-Moves quiet s.state _ _ _ (
              pick_session quiet s.state sent.0 (transition SessionEvent.logout_sent sent.1) sent.1
                (λ e.
                  then-Moves quiet s.state sent.1.state _ answered
                    (moves quiet _ _ SessionEvent.logout_sent refl (transition-state _ sent.1)))
                (λ e. answered)))
      ]

  pub handle_admin_message-MovesTo :
      (msg : ParsedMessage) (s : Session S)
      → MovesTo
          (permits (msg.header.msg_type == MsgType.logon))
          s.state
          (handle_admin_message ops now msg s)
  unfolding handle_admin_message
  handle_admin_message-MovesTo msg s =
      let type = msg.header.msg_type in
      let l = permits (type == MsgType.logon) in
      pick l s.state (type == MsgType.logon) _ _ (λ e. rw e (handle_logon-Moves msg s))
        (λ e. rw e (
          pick (permits false) s.state (type == MsgType.logout) _ _ (λ e. handle_logout-Moves msg s)
            (λ e.
              pick (permits false) s.state (type == MsgType.heartbeat) _ _
                (λ e. stays (permits false) _ _ (handle_heartbeat-state ops now msg s))
                (λ e.
                  pick (permits false) s.state (type == MsgType.test_request) _ _
                    (λ e. stays (permits false) _ _ (handle_test_request-state ops now msg s))
                    (λ e.
                      pick (permits false) s.state (type == MsgType.resend_request) _ _
                        (λ e.
                          HasState-MovesTo (permits false) _ _
                            (handle_resend_request-state ops now msg s))
                        (λ e.
                          pick (permits false) s.state (type == MsgType.sequence_reset) _ _
                            (λ e.
                              stays (permits false) _ _ (handle_sequence_reset-state ops now msg s))
                            (λ e.
                              pick (permits false) s.state (type == MsgType.reject) _ _
                                (λ e. stays (permits false) _ _ (handle_reject-state ops now msg s))
                                (λ e. stays (permits false) _ _ refl))))))))
