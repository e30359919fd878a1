-- ===== src/Payouts.antt =====
-- The payment of miners (processPayouts, internal/master/master.go).
pub mod Batch
pub mod Loops
pub mod Ledger
pub mod Double
pub mod Schedule
pub mod Batches
pub mod Locking
pub mod Confirmation
pub mod Listing
pub mod Owed
pub mod Whole
pub mod Exclusion
mod Tests
mod Examples
mod Runs
