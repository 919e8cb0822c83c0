-- ===== src/Connection.antt =====
-- The connection: src/connection.
pub mod Coverage
pub mod Track
pub mod Assembly
pub mod Error
pub mod Limits
pub mod Entry
pub mod Table
pub mod Request
pub mod Reader
pub mod Actor
mod Tests
