-- ===== src/Tests.antt =====
-- Runs of the theorems on concrete data.
pub mod Queues
pub mod Devices
pub mod Links
pub mod Batches
pub mod Calls
pub mod Events
pub mod Codes
pub mod Handling
pub mod Locking
pub mod Taps
pub mod Forms
pub mod Reporting
