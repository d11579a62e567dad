-- ===== src/Engine.antt =====
-- crates/babel-protocol/src/engine.rs and engine/: the protocol engine.
pub mod Api
pub mod State
pub mod Sources
pub mod Output
pub mod Rib
pub mod FollowUp
pub mod Admission
pub mod Selection
pub mod Recompute
pub mod Updates
pub mod Requests
pub mod Multicast
pub mod Validation
