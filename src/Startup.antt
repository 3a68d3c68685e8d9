-- ===== src/Startup.antt =====
-- src/main.rs: the start-up, one module per part.
pub mod Launch
pub mod Commands
pub mod Registered
pub mod Imported
pub mod Recovered
mod Tests
