-- ===== src/Transport.antt =====
-- The package transport: the frames of transport/ws.py over a byte stream.
pub mod Socket
pub mod Frame
pub mod WebSocket
pub mod Http
pub mod Opening
