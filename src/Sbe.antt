-- ===== src/Sbe.antt =====
-- include/nexusfix/sbe: messages of fixed layout, read and written in place.
pub mod Bytes
pub mod Layout
pub mod Fields
pub mod Header
pub mod NewOrderSingle
pub mod ExecutionReport
pub mod Dispatch
