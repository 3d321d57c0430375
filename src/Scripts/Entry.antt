-- ===== src/Scripts/Entry.antt =====
-- The entry orders: their evidence (scripts/strategy_evidence.py), the one fallback of a Maker order
-- (scripts/maker_fallback.py) and the gate in front of them (scripts/entry_gateway.py).
pub mod Evidence
pub mod Fallback
pub mod Calls
pub mod Coherent
pub mod Once
mod Tests
