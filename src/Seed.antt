-- ===== src/Seed.antt =====
-- src/wallet_loader.rs: the file of the daemon's key, one module per part.
pub mod Files
pub mod Loader
pub mod Samples
mod Tests
