-- ===== src/Getwork.antt =====
-- The getwork server of internal/slave/getwork.go.
pub mod State
pub mod Server
pub mod Accepted
pub mod Logins
mod Tests
