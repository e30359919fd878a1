-- ===== src/TosHash.antt =====
-- internal/toshash/toshash.go: the proof-of-work hash, the header formats and share validation.
pub mod Words
pub mod Bits
pub mod Mix
pub mod Scratchpad
pub mod Strided
pub mod Passes
pub mod Header
pub mod Slices
pub mod RoundTrip
pub mod Layout
pub mod Shares
mod Tests
