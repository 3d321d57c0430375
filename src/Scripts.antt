-- ===== src/Scripts.antt =====
-- scripts/: the parts that the gateway and the trader share.
pub mod Entry
pub mod Fills
pub mod Protection
pub mod Waits
pub mod RuntimeFeatures
