-- ===== src/Router.antt =====
-- crates/babel-router/src: what stands between the engine and the sockets.
pub mod Scheduler
pub mod Queue
