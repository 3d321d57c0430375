-- ===== src/Gateway.antt =====
-- okxquant_gateway/: the durable event queue, the scheduler and the delivery worker.
pub mod Schema
pub mod Store
pub mod Scheduler
pub mod AiRecovery
pub mod Worker
