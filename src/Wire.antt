-- ===== src/Wire.antt =====
-- src/wire: message encode and decode.
pub mod Error
pub mod Netbios
pub mod Header
pub mod Binrw
pub mod Andx
pub mod Offsets
pub mod Message
pub mod Transaction
pub mod Find
mod Tests
