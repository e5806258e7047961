-- ===== src/Tests.antt =====
-- Runs of the model at concrete inputs, and the theorems at inputs where their conditions hold.
mod Messages
mod Indexed
mod Streams
mod Scanners
mod Timestamps
mod Groups
mod Sequences
mod Codecs
mod Queues
mod Stores
mod Sessions
