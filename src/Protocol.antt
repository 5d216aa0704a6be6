-- ===== src/Protocol.antt =====
-- crates/agsv-protocol: the values that the aggregate keeps and the messages it receives.
pub mod Ids
pub mod Status
pub mod Validation
pub mod Actor
pub mod Work
pub mod Message
pub mod Kind
pub mod Payload
pub mod Envelope
pub mod Delivery
