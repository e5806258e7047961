-- ===== src/Store.antt =====
-- include/nexusfix/store: the messages kept for resending, and the numbers that outlive a session.
pub mod Interface
pub mod Memory
