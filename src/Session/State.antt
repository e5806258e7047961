-- ===== src/Session/State.antt =====
-- include/nexusfix/session/state.hpp: the states and events of a session, the transition table and
-- `next_state`. The table is built by the same writes as `create_transition_table`.
pub mod Handshake
use nexus_fix.Base.{
  ℕ, suc, ◌≡◌, refl, Bool, true, false, ◌&&◌, List, [], ◌∷◌, Option, none, some, ltb, ◌==◌,
  if◌then◌else◌, length, get_elem?, get_or, set, replicate,
}

pub data SessionState : Type 0 where
  disconnected socket_connected logon_sent logon_received active : SessionState
  logout_pending logout_received reconnecting error : SessionState

pub data SessionEvent : Type 0 where
  connect disconnect logon_sent logon_received logon_acknowledged logon_rejected : SessionEvent
  logout_sent logout_received heartbeat_timeout test_request_sent : SessionEvent
  test_request_received message_received error : SessionEvent

abbrev pub session_state_count : ℕ
session_state_count = 9

abbrev pub session_event_count : ℕ
session_event_count = 13

abbrev pub state_index : SessionState → ℕ
state_index SessionState.disconnected = 0
state_index SessionState.socket_connected = 1
state_index SessionState.logon_sent = 2
state_index SessionState.logon_received = 3
state_index SessionState.active = 4
state_index SessionState.logout_pending = 5
state_index SessionState.logout_received = 6
state_index SessionState.reconnecting = 7
state_index SessionState.error = 8

abbrev pub event_index : SessionEvent → ℕ
event_index SessionEvent.connect = 0
event_index SessionEvent.disconnect = 1
event_index SessionEvent.logon_sent = 2
event_index SessionEvent.logon_received = 3
event_index SessionEvent.logon_acknowledged = 4
event_index SessionEvent.logon_rejected = 5
event_index SessionEvent.logout_sent = 6
event_index SessionEvent.logout_received = 7
event_index SessionEvent.heartbeat_timeout = 8
event_index SessionEvent.test_request_sent = 9
event_index SessionEvent.test_request_received = 10
event_index SessionEvent.message_received = 11
event_index SessionEvent.error = 12

-- `static_cast<SessionState>`; `none` for a number that names no state.
abbrev pub state_of_index : ℕ → Option SessionState
state_of_index n =
    get_elem?
      (SessionState.disconnected ∷ SessionState.socket_connected ∷ SessionState.logon_sent
        ∷ SessionState.logon_received ∷ SessionState.active ∷ SessionState.logout_pending
        ∷ SessionState.logout_received ∷ SessionState.reconnecting ∷ SessionState.error ∷ [])
      n

-- `StateInfo::is_connected`, state by state.
abbrev pub is_connected_info : SessionState → Bool
is_connected_info SessionState.disconnected = false
is_connected_info SessionState.socket_connected = true
is_connected_info SessionState.logon_sent = true
is_connected_info SessionState.logon_received = true
is_connected_info SessionState.active = true
is_connected_info SessionState.logout_pending = true
is_connected_info SessionState.logout_received = false
is_connected_info SessionState.reconnecting = false
is_connected_info SessionState.error = false

-- `create_is_connected_table`.
abbrev pub is_connected_table : List Bool
is_connected_table =
    is_connected_info SessionState.disconnected
    ∷ is_connected_info SessionState.socket_connected
    ∷ is_connected_info SessionState.logon_sent
    ∷ is_connected_info SessionState.logon_received
    ∷ is_connected_info SessionState.active
    ∷ is_connected_info SessionState.logout_pending
    ∷ is_connected_info SessionState.logout_received
    ∷ is_connected_info SessionState.reconnecting
    ∷ is_connected_info SessionState.error
    ∷ []

unfoldable pub is_connected : SessionState → Bool
is_connected s =
    if ltb (state_index s) (length is_connected_table)
    then get_or is_connected_table (state_index s) false
    else false

unfoldable pub can_send_app_messages : SessionState → Bool
can_send_app_messages s = state_index s == state_index SessionState.active

abbrev pub no_transition : ℕ
no_transition = 0xFF

-- `table[row][col] = next`
write_cell : ℕ → ℕ → ℕ → List (List ℕ) → List (List ℕ)
write_cell row col next table = set table row (set (get_or table row []) col next)

initial_table : List (List ℕ)
initial_table = replicate session_state_count (replicate session_event_count no_transition)

-- The writes of `create_transition_table`, as (state, event, next state).
writes : List (ℕ × ℕ × ℕ)
writes =
    (0, 0, 1)
    ∷ (1, 1, 0)
    ∷ (1, 2, 2)
    ∷ (1, 3, 3)
    ∷ (2, 1, 0)
    ∷ (2, 3, 4)
    ∷ (2, 5, 0)
    ∷ (2, 8, 8)
    ∷ (3, 1, 0)
    ∷ (3, 4, 4)
    ∷ (3, 5, 0)
    ∷ (4, 1, 7)
    ∷ (4, 6, 5)
    ∷ (4, 7, 6)
    ∷ (4, 8, 8)
    ∷ (4, 12, 8)
    ∷ (5, 1, 0)
    ∷ (5, 7, 0)
    ∷ (5, 8, 0)
    ∷ (6, 1, 0)
    ∷ (6, 6, 0)
    ∷ (7, 0, 1)
    ∷ (7, 12, 8)
    ∷ (8, 0, 1)
    ∷ []

apply_writes : List (ℕ × ℕ × ℕ) → List (List ℕ) → List (List ℕ)
apply_writes [] table = table
apply_writes ((row, col, next) ∷ ws) table = apply_writes ws (write_cell row col next table)

create_transition_table : List (List ℕ)
unfolding write_cell initial_table writes apply_writes
create_transition_table = apply_writes writes initial_table

transition_table : List (List ℕ)
unfolding create_transition_table
transition_table = create_transition_table

cell : ℕ → ℕ → ℕ
unfolding transition_table
cell row col = get_or (get_or transition_table row []) col no_transition

-- The cast of a cell to a state. Every cell that is read names a state; the default is never taken.
cast_state : SessionState → ℕ → SessionState
cast_state current n = elim (state_of_index n) [ some s ↦ s | none ↦ current ]

unfoldable pub next_state : SessionState → SessionEvent → SessionState
unfolding cell cast_state
next_state current event =
    if ltb (state_index current) session_state_count && ltb (event_index event) session_event_count
    then (if cell (state_index current) (event_index event) == no_transition
        then current
        else cast_state current (cell (state_index current) (event_index event)))
    else current

-- The state after a sequence of events.
unfoldable pub run : SessionState → List SessionEvent → SessionState
run s [] = s
run s (e ∷ es) = run (next_state s e) es

-- Two of the table's `static_assert`s.
active_logout :
    (next_state SessionState.active SessionEvent.logout_sent ≡ SessionState.logout_pending)
    × (next_state SessionState.active SessionEvent.logout_received ≡ SessionState.logout_received)
unfolding next_state
active_logout = (refl, refl)
