-- ===== src/Transport/Session.antt =====
-- include/psx/transport/session.hpp and src/transport/session.cpp: streams multiplexed on a connection.
pub mod State
pub mod Flush
pub mod Calls
pub mod Dispatch
pub mod Laws
mod Tests
