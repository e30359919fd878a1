-- ===== src/Master.antt =====
-- The jobs and shares of internal/master/master.go.
pub mod Jobs
pub mod Shares
pub mod Unlocking
pub mod Maturing
pub mod Verdicts
pub mod Backlog
mod Tests
