-- ===== src/Stratum.antt =====
-- The mining server of internal/slave/stratum.go.
pub mod Session
pub mod Vardiff
pub mod Handlers
pub mod Server
pub mod Invariant
pub mod Reach
pub mod Trust
pub mod Names
pub mod Requested
pub mod Fixed
mod Tests
