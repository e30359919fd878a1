-- ===== src/Websocket.antt =====
-- The WebSocket server of internal/slave/websocket.go.
pub mod Client
pub mod Sound
pub mod Forwarded
mod Tests
