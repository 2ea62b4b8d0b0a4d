-- ===== src/Devices/Observer.antt =====
-- devices/observer.py: the events that the observer reports.
pub mod Bindings
pub mod Reports
pub mod Journal
use jebao_flow_engine.Base.{ℕ, Option, String}
use jebao_flow_engine.Protocol.Models.{DeviceState}

pub data ObserverStatus : Type 0 where
  unmapped connecting online offline : ObserverStatus

pub record ObserverEvent : Type 0 where
  pub device_id : String
  pub status : ObserverStatus
  pub occurred_at : ℕ
  pub state : Option DeviceState
  pub error : Option String
