-- ===== src/Ezsp/Command.antt =====
-- src/ezsp/command.rs: a command and its response. A struct with one field is that field, and one
-- without fields is `Unit`.
pub mod Interface
pub mod Setup
pub mod Network
pub mod Messages
pub mod Keys
pub mod Requests
pub mod Responses
pub mod Examples
