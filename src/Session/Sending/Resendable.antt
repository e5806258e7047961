-- ===== src/Session/Sending/Resendable.antt =====
-- Sending with the store of include/nexusfix/store/memory_message_store.hpp: what was sent can be
-- found to be sent again.
use nexus_fix.Session.Context.{Session}
