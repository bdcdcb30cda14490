-- ===== src/Ezsp.antt =====
-- The protocol layer, src/ezsp: versions, byte-level reading and writing, frame headers, and the
-- matching of responses to commands.
pub mod Version
pub mod Error
pub mod Exec
pub mod Codec
pub mod FrameId
pub mod Frame
pub mod Correlation
pub mod Command
pub mod Callback
pub mod Examples
