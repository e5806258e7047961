-- ===== src/Session/State/Handshake.antt =====
-- What the transition table guarantees: no session is active without a connection and a logon, a
-- lost connection is never a connected state, and how far each state is from an active session.
use nexus_fix.Base.{◌≡◌, refl, ◌⊎◌, Bool, true, false, List, [], ◌∷◌, arith, if◌then◌else◌, any}
use nexus_fix.Session.State.{SessionState, SessionEvent, is_connected, next_state, run}

abbrev pub is_connect : SessionEvent → Bool
is_connect SessionEvent.connect = true
is_connect _ = false

abbrev pub is_logon_received : SessionEvent → Bool
is_logon_received SessionEvent.logon_received = true
is_logon_received _ = false

-- The session has a socket but has not read a logon.
abbrev before_logon : SessionState → Bool
before_logon SessionState.socket_connected = true
before_logon SessionState.logon_sent = true
before_logon _ = false

-- The session has no socket.
abbrev offline : SessionState → Bool
offline SessionState.disconnected = true
offline SessionState.reconnecting = true
offline SessionState.error = true
offline _ = false

-- A connection, and a logon received after it.
abbrev pub has_handshake : List SessionEvent → Bool
has_handshake [] = false
has_handshake (e ∷ es) = if is_connect e then any is_logon_received es else has_handshake es

pub has_handshake-any :
    (es : List SessionEvent) → has_handshake es ≡ true → any is_logon_received es ≡ true
unfolding any
has_handshake-any [] h = cc
has_handshake-any (e ∷ es) h = ground (arith, has_handshake-any es)

-- One event moves an offline session only by `connect`, and then to a session before its logon.
offline_step :
    (s : SessionState) (e : SessionEvent)
    → offline s ≡ true
    → ((is_connect e ≡ true) × (before_logon (next_state s e) ≡ true))
      ⊎ ((is_connect e ≡ false) × (offline (next_state s e) ≡ true))
unfolding next_state
offline_step SessionState.disconnected e h = ground arith
offline_step _ e h = ground arith

before_logon_step :
    (s : SessionState) (e : SessionEvent)
    → before_logon s ≡ true
    → (is_logon_received e ≡ true)
      ⊎ (before_logon (next_state s e) ≡ true)
      ⊎ (offline (next_state s e) ≡ true)
unfolding next_state
before_logon_step SessionState.disconnected e h = ground arith
before_logon_step _ e h = ground arith

run_handshake :
    (es : List SessionEvent) (s : SessionState)
    → run s es ≡ SessionState.active
    → (offline s ≡ true → has_handshake es ≡ true)
      × (before_logon s ≡ true → any is_logon_received es ≡ true)
unfolding run any
run_handshake [] s h = ground arith
run_handshake (e ∷ es) s h =
    let (off, before) = run_handshake es (next_state s e) h in
    (
      λ o. ground (arith, offline_step s e o, off, before),
      λ b. ground (arith, before_logon_step s e b, off, before, has_handshake-any es),
    )

-- A list of events that leads from the disconnected to the active state has a connection in it
-- and, later, a logon received.
pub active_needs_handshake :
    (es : List SessionEvent)
    → run SessionState.disconnected es ≡ SessionState.active
    → has_handshake es ≡ true
active_needs_handshake es h = (run_handshake es SessionState.disconnected h).0 refl

-- Whatever the state, losing the connection leaves a state that counts as not connected.
pub disconnect_offline :
    (s : SessionState) → is_connected (next_state s SessionEvent.disconnect) ≡ false
unfolding is_connected next_state
disconnect_offline SessionState.disconnected = refl
disconnect_offline _ = refl

-- The events that lead from each state to an active session.
abbrev pub route : SessionState → List SessionEvent
route SessionState.active = []
route SessionState.logon_received = SessionEvent.logon_acknowledged ∷ []
route SessionState.logon_sent = SessionEvent.logon_received ∷ []
route SessionState.socket_connected = SessionEvent.logon_sent ∷ SessionEvent.logon_received ∷ []
route SessionState.logout_pending =
    SessionEvent.disconnect ∷ SessionEvent.connect ∷ SessionEvent.logon_sent
    ∷ SessionEvent.logon_received ∷ []
route SessionState.logout_received =
    SessionEvent.disconnect ∷ SessionEvent.connect ∷ SessionEvent.logon_sent
    ∷ SessionEvent.logon_received ∷ []
route _ = SessionEvent.connect ∷ SessionEvent.logon_sent ∷ SessionEvent.logon_received ∷ []
