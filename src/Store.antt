-- ===== src/Store.antt =====
-- The store of internal/storage/redis.go: blocks, balances, payments and debts.
pub mod Redis
pub mod Data
pub mod Blocks
pub mod Payments
pub mod Fields
pub mod Transfers
pub mod Batches
pub mod Maturity
pub mod Memory
mod Tests
