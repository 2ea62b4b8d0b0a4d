-- ===== src/Devices.antt =====
-- The devices (src/jebao_flow/devices).
pub mod RawSession
pub mod Registry
pub mod Simulator
pub mod Lan
pub mod Factory
pub mod Gizwits
pub mod Observer
