-- ===== src/StartupExample.antt =====
-- src/examples/startup.rs: a client that brings up a coordinator step by step and reports each step.
pub mod Checklist
pub mod Steps
pub mod Bringup
pub mod Joining
pub mod Sending
pub mod Main
pub mod Counting
pub mod Configured
pub mod Delivery
pub mod Examples
