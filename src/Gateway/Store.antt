-- ===== src/Gateway/Store.antt =====
-- okxquant_gateway/store.py, GatewayStore: one module for each group of methods.
-- A method is one committed transaction: a function from the database and the clock's reading `now`
-- to the new database and the result.
pub mod Deliveries
pub mod Jobs
pub mod Recoveries
pub mod Settings
pub mod Reports
pub mod Call
pub mod Operations
pub mod Valid
pub mod Frames
pub mod Retry
pub mod Claims
mod Tests
