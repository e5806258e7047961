-- ===== src/Session.antt =====
-- include/nexusfix/session: the session layer.
pub mod State
pub mod Sequence
pub mod Gaps
pub mod Heartbeat
pub mod Context
pub mod Sending
pub mod Admin
pub mod Clock
pub mod Manager
