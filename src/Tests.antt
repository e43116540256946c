-- ===== src/Tests.antt =====
-- Runs on small inputs, and the theorems at concrete inputs.
mod Routing
mod Plan
mod Exec
mod Master
mod RoutingCheck
mod Billing
mod Rebuild
mod Mode
mod Reporter
mod Inflight
mod Settler
mod RouteIndex
mod ByokCipher
mod TokenStore
mod Usage
