-- ===== src/Mqtt.antt =====
-- mqtt/: the messages and the service that owns the desired state.
pub mod Models
pub mod Service
