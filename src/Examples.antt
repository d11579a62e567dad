-- ===== src/Examples.antt =====
-- Tests, and the theorems at concrete inputs.
mod Prefixes
mod Distances
mod Metrics
mod Authentication
mod Engines
mod Routing
mod Packets
mod Queues
mod Requests
mod Announcements
