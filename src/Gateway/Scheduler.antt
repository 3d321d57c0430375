-- ===== src/Gateway/Scheduler.antt =====
-- okxquant_gateway/scheduler.py: which jobs there are, when one is due, and what a tick does.
pub mod Jobs
pub mod Due
pub mod Timing
pub mod State
pub mod Runs
pub mod Tick
pub mod Launch
pub mod Reaped
pub mod Launches
pub mod Fresh
pub mod Special
mod Tests
