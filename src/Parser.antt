-- ===== src/Parser.antt =====
-- include/nexusfix/parser: from bytes to fields, the header and the parsed message.
pub mod FieldView
pub mod FieldTable
pub mod Header
pub mod Frame
pub mod Message
pub mod Vector
pub mod Timestamp
pub mod Boundary
pub mod Stream
pub mod Indexed
pub mod Group
