-- ===== src/Stream.antt =====
-- src/stream: buffers, framing, credit and stream state.
pub mod Window
pub mod Buffer
pub mod Framer
pub mod Credit
pub mod Spool
pub mod Channel
mod Tests
