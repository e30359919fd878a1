-- ===== src/Xatum.antt =====
-- The Xatum server of internal/slave/xatum.go.
pub mod Session
pub mod Sound
mod Tests
