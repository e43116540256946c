-- ===== src/Master.antt =====
-- The control plane.
pub mod Limit
pub mod Heartbeat
pub mod RoutingCheck
pub mod Billing
pub mod RebuildRunner
pub mod Settler
pub mod ByokCipher
