-- ===== src/Receipt.antt =====
-- Plans on disk and receipts (src/receipt.rs): `Seal` has the hashes of plans and events,
-- `PlanFile` writes and reads plans, `Journal` writes the two events of a receipt, and `Check` and
-- `Verify` check a receipt offline.
pub mod Version
pub mod Seal
pub mod PlanFile
pub mod Journal
pub mod Check
pub mod Verify
pub mod Writing
pub mod Sealing
pub mod Opening
pub mod PlanReading
pub mod PlanWriting
pub mod Tamper
