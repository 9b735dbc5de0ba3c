-- ===== src/Protocol.antt =====
-- internal/protocol: the frames that the server and its PHP workers exchange.
pub mod Wire
pub mod Messages
mod Tests
