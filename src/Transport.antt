-- ===== src/Transport.antt =====
-- src/transport: the psx/1 wire format and the session that speaks it.
pub mod Wire
pub mod Frame
pub mod Control
pub mod Open
pub mod Session
pub mod Controller
pub mod Canary
