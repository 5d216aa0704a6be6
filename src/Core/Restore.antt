-- ===== src/Core/Restore.antt =====
-- crates/agsv-core/src/supervisor.rs: the checks of a snapshot.
pub mod Entities
pub mod Reviews
pub mod Requests
pub mod Handoffs
pub mod Restored
pub mod Offered
pub mod Counts
mod Examples
