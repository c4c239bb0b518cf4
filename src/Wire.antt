-- ===== src/Wire.antt =====
-- peer_wire.c: the messages of the peer protocol, their handlers and the choice of what to request.
pub mod Send
pub mod Choose
pub mod Request
pub mod Handlers
pub mod Messages
pub mod Handshake
pub mod Connections
