-- ===== src/Relay.antt =====
-- The agent's relay pipeline.
pub mod State
pub mod Affinity
pub mod Plan
pub mod Random
pub mod Routing
pub mod Resilience
pub mod Exec
pub mod Status
pub mod Chain
pub mod Mode
pub mod Inflight
pub mod Usage
