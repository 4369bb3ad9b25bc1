-- ===== src/Protocol/WebSocket.antt =====
-- The WebSocket protocol, lib_network/src/protocols/websocket: the frame parser, the frames that
-- the server writes, the opening handshake and the handler.
pub mod Parser
pub mod Encoder
pub mod RoundTrip
pub mod Handler
mod Tests
