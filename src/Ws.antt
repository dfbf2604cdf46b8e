-- ===== src/Ws.antt =====
-- internal/adapter/ws: the clients of the WebSocket endpoint.
pub mod Hub
pub mod Conns
pub mod Clients
pub mod Reach
