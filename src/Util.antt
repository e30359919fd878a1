-- ===== src/Util.antt =====
-- The helpers of internal/util.
pub mod Difficulty
pub mod Targets
pub mod Hex
pub mod Encoding
mod Tests
