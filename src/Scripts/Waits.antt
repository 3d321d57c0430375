-- ===== src/Scripts/Waits.antt =====
-- scripts/wait_counters.py: the streaks of cycles in which the trader only waits.
pub mod Counters
pub mod Streaks
mod Tests
