-- ===== src/Upstream.antt =====
-- internal/rpc/upstream.go: several upstream nodes, their health and the failover between them.
pub mod Manager
pub mod Failover
pub mod Selection
pub mod Health
pub mod Sorting
pub mod Calls
pub mod Events
mod Tests
