-- ===== src/Protocol.antt =====
-- Package internal/protocol: frames, control messages and the check of IPv4 headers.
pub mod Frame
pub mod Packet
pub mod Control
