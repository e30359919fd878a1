-- ===== src/Policy.antt =====
-- internal/policy/policy.go: bans, connection limits and scores, for each IP.
pub mod State
pub mod Tables
pub mod Bans
pub mod Invariant
pub mod Steps
pub mod Safety
pub mod Lifecycle
pub mod Whitelist
pub mod Limits
pub mod Window
pub mod Scores
mod Tests
