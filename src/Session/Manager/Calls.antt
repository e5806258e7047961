-- ===== src/Session/Manager/Calls.antt =====
-- The calls that an application, its transport and its timer make on a SessionManager of
-- include/nexusfix/session/session_manager.hpp, as data: a session's life is a list of them.
use nexus_fix.Base.{Bool, true, false, List, [], ◌∷◌, Option, none, some, ◌==◌, Bytes}
use nexus_fix.Types.{ok, err}
use nexus_fix.Types.MsgType
use nexus_fix.Messages.Assembler.{MessageAssembler}
use nexus_fix.Messages.Fix44.{Envelope}
use nexus_fix.Parser.Message.{parse}
use nexus_fix.Session.Context.{Session, Instant}
use nexus_fix.Session.Manager.{
  on_connect, on_disconnect, initiate_logon, initiate_logout, send_app_message, on_timer_tick,
  on_data_received,
}
use nexus_fix.Store.Interface.{IMessageStore}

pub data Call : Type 0 where
  connect disconnect logon tick : Call
  logout : Bytes → Call
  send : (MessageAssembler → Envelope → MessageAssembler) → Call
  receive : Bytes → Call

-- The bytes parse as a Logon message.
abbrev pub is_logon : Bytes → Bool
is_logon bytes = elim (parse bytes) [
  | ok msg ↦ msg.header.msg_type == MsgType.logon
  | err code tag offset ↦ false
]

abbrev pub connects : Call → Bool
connects connect = true
connects _ = false

abbrev pub brings_logon : Call → Bool
brings_logon (receive bytes) = is_logon bytes
brings_logon _ = false

module _ {S : Type 0} (ops : IMessageStore S) where
  -- The session after a call; `none` when the call does not return.
  unfoldable pub make : Instant → Call → Session S → Option (Session S)
  make now connect s = some (on_connect s)
  make now disconnect s = some (on_disconnect s)
  make now logon s = some (initiate_logon ops now s).1
  make now tick s = some (on_timer_tick ops now s)
  make now (logout text) s = some (initiate_logout ops now text s).1
  make now (send build) s = some (send_app_message ops now build s).1
  make now (receive bytes) s = on_data_received ops now bytes s

  unfoldable pub make_all : List (Instant × Call) → Session S → Option (Session S)
  make_all [] s = some s
  make_all ((now, c) ∷ cs) s = elim (make now c s) [ none ↦ none | some s' ↦ make_all cs s' ]
