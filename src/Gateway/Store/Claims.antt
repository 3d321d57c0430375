-- ===== src/Gateway/Store/Claims.antt =====
-- Proofs on the claiming methods of okxquant_gateway/store.py, one module for each subject.
pub mod Queue
pub mod Held
pub mod Exclusive
pub mod Recovery
pub mod Request
pub mod Follows
pub mod Lifecycle
