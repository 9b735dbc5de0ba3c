-- ===== src/WebSocket.antt =====
-- internal/websocket: the connection manager.
pub mod Manager
pub mod Handler
mod Tests
