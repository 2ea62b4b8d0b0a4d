-- ===== src/Protocol.antt =====
-- The LAN protocol layer (src/jebao_flow/protocol).
pub mod Codec
pub mod Value
pub mod Schema
pub mod Models
pub mod Control
pub mod Profiles
pub mod Schedule
pub mod Session
pub mod Discovery
