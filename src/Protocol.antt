-- ===== src/Protocol.antt =====
-- The protocol handlers, lib_network/src/protocols.
pub mod Host
pub mod Framing
pub mod Tcp
pub mod Udp
pub mod Rpc
pub mod WebSocket
pub mod Grpc
pub mod Http2
pub mod Client
pub mod Http
pub mod Quic
mod Tests
