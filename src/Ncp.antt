-- ===== src/Ncp.antt =====
-- src/ncp.rs: the runtime, which joins the transport, the ASH connection and the correlator.
pub mod Transport
pub mod Runtime
pub mod Command
pub mod Startup
pub mod Failures
pub mod Recovery
pub mod Sending
pub mod Receiving
pub mod Exchange
pub mod Dialogue
pub mod Chunking
pub mod Lost
pub mod Silence
pub mod Filling
pub mod Oversized
pub mod Examples
