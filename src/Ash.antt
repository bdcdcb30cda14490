-- ===== src/Ash.antt =====
-- The link layer, src/ash: frames and their control byte, the byte codec, the connection.
pub mod Error
pub mod Frame
pub mod Codec
pub mod Connection
pub mod Link
pub mod Examples
