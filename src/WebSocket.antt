-- ===== src/WebSocket.antt =====
-- scripts/verify-websocket.mjs: the WebSocket client that checks the transport.
pub mod Frame
pub mod Session
