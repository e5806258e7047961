-- ===== src/Types/MsgType.antt =====
-- include/nexusfix/interfaces/i_message.hpp, namespace msg_type: the session-level message types.
use nexus_fix.Base.{ℕ}

abbrev pub heartbeat : ℕ
heartbeat = b'0'

abbrev pub test_request : ℕ
test_request = b'1'

abbrev pub resend_request : ℕ
resend_request = b'2'

abbrev pub reject : ℕ
reject = b'3'

abbrev pub sequence_reset : ℕ
sequence_reset = b'4'

abbrev pub logout : ℕ
logout = b'5'

abbrev pub logon : ℕ
logon = b'A'
