-- ===== src/Runtime.antt =====
-- crates/agsv-runtime: the durable store of leases, actors, launches and messages.
pub mod Types
pub mod Table
pub mod Store
pub mod Leases
pub mod Actors
pub mod Launch
pub mod Messages
pub mod Claims
pub mod Schema
pub mod Steps
pub mod Rows
pub mod Frames
pub mod Queue
pub mod Claiming
pub mod History
pub mod Grant
pub mod Superseded
pub mod Keys
pub mod Keyed
pub mod Exclusive
pub mod Progress
pub mod Opening
pub mod Attached
pub mod Resumed
pub mod Retaken
pub mod Resent
pub mod Swept
pub mod Permitted
mod Scene
mod Examples
pub mod Service
pub mod Served
pub mod Runs
pub mod Obtained
pub mod Launched
pub mod Lost
mod HostExamples
