-- ===== src/Agent.antt =====
-- The data plane besides the relay.
pub mod RouteIndex
pub mod Reporter
pub mod EntityCache
pub mod TokenStore
