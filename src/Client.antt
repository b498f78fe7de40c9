-- ===== src/Client.antt =====
-- examples/tool-client.mjs: the client that the repository ships with the bridge.
pub mod Sse
pub mod Demo
