-- ===== src/Types.antt =====
-- src/types: what the fields of commands, responses and callbacks are made of.
pub mod Signed
pub mod Status
pub mod Network
pub mod Aps
pub mod Security
pub mod Fields
pub mod RoundTrips
pub mod Named
pub mod Examples
