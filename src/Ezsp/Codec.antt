-- ===== src/Ezsp/Codec.antt =====
-- src/ezsp/codec.rs: a cursor over received bytes and a buffer for the bytes to send. Both carry
-- the protocol version, since the width of a field depends on it.
pub mod Reader
pub mod Writer
pub mod Steps
pub mod Failures
