-- ===== src/Messages.antt =====
-- include/nexusfix/messages: the assembler of outgoing messages and the session-level messages.
pub mod Assembler
pub mod Fix44
