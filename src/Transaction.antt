-- ===== src/Transaction.antt =====
-- src/transaction.rs: the requests, the decision after each page, the poller and the processor.
pub mod Request
pub mod Step
pub mod Polling
pub mod Scan
pub mod Nonces
pub mod Extrinsic
pub mod Handler
pub mod Scheduler
mod Tests
