-- ===== src/Wallet.antt =====
-- src/wallet.rs: the managed-wallet worker, one module per part.
pub mod Request
pub mod Step
pub mod Scan
pub mod Derive
mod Tests
