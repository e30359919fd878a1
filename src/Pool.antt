-- ===== src/Pool.antt =====
-- How cmd/tos-pool/main.go wires the mining server to the master.
pub mod Wiring
pub mod Unproven
pub mod Proven
mod Tests
