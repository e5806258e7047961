-- ===== src/Memory.antt =====
-- include/nexusfix/memory: the queue between two threads.
pub mod Spsc
