-- ===== src/Transport.antt =====
-- src/transport: the errors of a transport, the scripted one for tests and the serial port. What the
-- runtime asks of a transport is in Ncp.Transport.
pub mod Error
pub mod Fake
pub mod Serial
pub mod Scripted
pub mod Reading
pub mod Examples
