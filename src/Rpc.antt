-- ===== src/Rpc.antt =====
-- src/rpc: the remote procedure calls that a pipe carries.
pub mod Pdu
pub mod Collector
pub mod Ndr
mod Tests
