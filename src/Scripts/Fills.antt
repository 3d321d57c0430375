-- ===== src/Scripts/Fills.antt =====
-- scripts/fill_accounting.py: the fees of a closed position from the archived fills.
pub mod Records
pub mod Match
pub mod Reconcile
pub mod Inventory
pub mod Sums
pub mod Matched
pub mod Account
pub mod Verified
mod Tests
