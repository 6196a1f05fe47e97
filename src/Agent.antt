-- ===== src/Agent.antt =====
-- Package agent: the gateway's side.
pub mod Snapshot
pub mod WireGuard
pub mod Worker
pub mod Transport
pub mod Tls
pub mod Command
mod Tests
