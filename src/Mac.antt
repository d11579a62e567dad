-- ===== src/Mac.antt =====
-- crates/babel-protocol/src/mac.rs: packet authentication.
pub mod Keys
pub mod Frame
pub mod Session
pub mod Receive
pub mod Signed
