-- ===== src/Protocol/Models.antt =====
-- protocol/models.py: the value objects shared with the upper layers. Times of day are texts, here
-- lists of character codes; a `datetime` is a number of microseconds.
use jebao_flow_engine.Base.{ℕ, Bool, Option, List, String, leb}
use jebao_flow_engine.Base.Dict.{Dict}
use jebao_flow_engine.Base.Result.{Result, ok, ◌>>◌, ensure, value_error}
use jebao_flow_engine.Protocol.Value.{Value}
use jebao_flow_engine.Groups.{holds_of}
use jebao_flow_engine.Safety.{PowerLimits}

pub data Capability : Type 0 where
  power enabled mode frequency error : Capability

pub record DeviceCapabilities : Type 0 where
  pub model : String
  pub product_key : Option String
  pub readable : List Capability
  pub writable : List Capability
  pub power_limits : PowerLimits
  pub power_step : ℕ

-- The codes of a text.
abbrev pub Text : Type 0
Text = List ℕ

pub record ScheduleEntry : Type 0 where
  pub slot : ℕ
  pub start : Text
  pub stop : Text
  pub mode : String
  pub mode_code : ℕ
  pub parameters : Dict Value

-- A `datetime` without a time zone.
pub record LocalTime : Type 0 where
  pub year : ℕ
  pub month : ℕ
  pub day : ℕ
  pub hour : ℕ
  pub minute : ℕ
  pub second : ℕ

pub record DeviceSchedule : Type 0 where
  pub enabled : Bool
  pub device_local_time : Option LocalTime
  pub slot_capacity : ℕ
  pub entries : List ScheduleEntry
  pub invalid_slots : List ℕ

pub record DeviceState : Type 0 where
  pub online : Bool
  pub enabled : Bool
  pub power : ℕ
  pub mode : String
  pub frequency : Option ℕ
  pub error : Option String
  pub schedule : Option DeviceSchedule
  pub observed_attributes : Dict Value
  pub observed_at : ℕ

pub record DeviceTarget : Type 0 where
  pub enabled : Bool
  pub power : ℕ
  pub mode : Option String
  pub frequency : Option ℕ

-- The constructor of `DeviceTarget`, with its field constraints.
unfoldable pub device_target : Bool → ℕ → Option String → Option ℕ → Result DeviceTarget
device_target is_enabled p m f = do
  ensure (leb p 100) value_error
  ensure (holds_of (λ n. leb n 100) f) value_error
  ok (record { enabled = is_enabled; power = p; mode = m; frequency = f })

pub record DiscoveredDevice : Type 0 where
  pub address : String
  pub device_id : String
  pub mac_address : Option String
  pub product_key : Option String
  pub model : String
  pub wifi_firmware_version : Option String
  pub api_server : Option String
  pub gizwits_version : Option String
  pub mcu_attributes_hex : String
  pub extra_hex : String
