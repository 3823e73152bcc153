-- ===== src/Handlers.antt =====
-- handlers: the command handlers that act on devices.
pub mod Params
pub mod Locks
pub mod Waiting
pub mod Devices
pub mod Reach
pub mod Kept
pub mod Discovery
pub mod Reports
pub mod Passthrough
