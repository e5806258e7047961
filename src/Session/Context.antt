-- ===== src/Session/Context.antt =====
-- include/nexusfix/session/session_manager.hpp and state.hpp: the configuration, the statistics, the
-- callbacks and the state of a SessionManager.
use nexus_fix.Base.{ℕ, Bool, List, [], ◌∷◌, Option, Bytes, if◌then◌else◌}
use nexus_fix.Base.Words.{ℤ}
use nexus_fix.Types.{SessionErrorCode}
use nexus_fix.Messages.Assembler.{MessageAssembler, new_assembler}
use nexus_fix.Parser.Message.{ParsedMessage}
use nexus_fix.Session.Heartbeat.{HeartbeatTimer, new_timer}
use nexus_fix.Session.Sequence.{SequenceManager, fresh_sequences}
use nexus_fix.Session.State.{SessionState}

-- The fields of `SessionConfig` that the session manager reads.
pub record SessionConfig : Type 0 where
  pub sender_comp_id : Bytes
  pub target_comp_id : Bytes
  pub begin_string : Bytes
  pub heart_bt_int : ℤ
  pub reset_seq_num_on_logon : Bool
  pub validate_comp_ids : Bool
  pub check_latency : Bool
  pub max_latency : ℤ

-- The 64-bit counters; none of them is taken to wrap.
pub record SessionStats : Type 0 where
  pub messages_sent : ℕ
  pub messages_received : ℕ
  pub bytes_sent : ℕ
  pub bytes_received : ℕ
  pub heartbeats_sent : ℕ
  pub heartbeats_received : ℕ
  pub test_requests_sent : ℕ
  pub resend_requests_sent : ℕ
  pub sequence_resets : ℕ
  pub rejects_sent : ℕ

abbrev pub no_stats : SessionStats
no_stats = record {
  messages_sent = 0;
  messages_received = 0;
  bytes_sent = 0;
  bytes_received = 0;
  heartbeats_sent = 0;
  heartbeats_received = 0;
  test_requests_sent = 0;
  resend_requests_sent = 0;
  sequence_resets = 0;
  rejects_sent = 0;
}

-- The calls of callbacks, as the application sees them.
pub data Effect : Type 0 where
  sent : Bytes → Bool → Effect
  state_changed : SessionState → SessionState → Effect
  failed : SessionErrorCode → ℕ → ℕ → Effect
  logged_on : Effect
  logged_out : Bytes → Effect
  app_message : ParsedMessage → Effect

-- Which callbacks are set. The result of `on_send` is the application's: it may depend on the
-- message and on all calls before it.
pub record SessionCallbacks : Type 0 where
  pub on_send : Option (List Effect → Bytes → Bool)
  pub on_app_message : Bool
  pub on_state_change : Bool
  pub on_error : Bool
  pub on_logon : Bool
  pub on_logout : Bool

-- The clocks, read once for each call of a method: the steady clock in nanoseconds, the system
-- clock in seconds, and the text of the timestamp generator.
pub record Instant : Type 0 where
  pub steady : ℕ
  pub system : ℕ
  pub timestamp : Bytes

-- The members of a SessionManager over a store of type `S`, and the calls made so far, the newest
-- first.
pub record Session (S : Type 0) : Type 0 where
  pub config : SessionConfig
  pub state : SessionState
  pub callbacks : SessionCallbacks
  pub heartbeat_timer : HeartbeatTimer
  pub assembler : MessageAssembler
  pub resend_asm : MessageAssembler
  pub sequences : SequenceManager
  pub stats : SessionStats
  pub message_store : Option S
  pub trace : List Effect

unfoldable pub new_session :
    {S : Type 0} → SessionConfig → SessionCallbacks → Option S → Instant → Session S
new_session c k store now = record {
  config = c;
  state = SessionState.disconnected;
  callbacks = k;
  heartbeat_timer = new_timer c.heart_bt_int now.steady;
  assembler = new_assembler;
  resend_asm = new_assembler;
  sequences = fresh_sequences;
  stats = no_stats;
  message_store = store;
  trace = [];
}

-- A callback, called if it is set.
abbrev pub notify : {S : Type 0} → Bool → Effect → Session S → Session S
notify on e s = if on then record s { trace = e ∷ s.trace } else s
