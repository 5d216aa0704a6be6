-- ===== src/Core.antt =====
-- crates/agsv-core: the workspace aggregate.
pub mod Error
pub mod Transitions
pub mod State
pub mod Mailbox
pub mod Registry
pub mod Teams
pub mod Context
pub mod Recipients
pub mod Waivers
pub mod Coordination
pub mod Lifecycle
pub mod Review
pub mod Handoff
pub mod Dispatch
pub mod Audit
pub mod Observe
pub mod Apply
pub mod Acknowledge
pub mod Frame
pub mod Links
pub mod Accept
pub mod Restore
