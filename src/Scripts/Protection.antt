-- ===== src/Scripts/Protection.antt =====
-- scripts/protection_policy.py: which orders protect a position, and where a stop may move to.
pub mod Coverage
pub mod Stop
pub mod Seen
pub mod Scanned
pub mod Ended
pub mod Proven
mod Tests
