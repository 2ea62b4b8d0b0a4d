-- ===== src/Mqtt/Models.antt =====
-- mqtt/models.py: commands, results and state payloads. A `datetime` is a number of microseconds;
-- the field constraints of a payload are its `check_` function.
use jebao_flow_engine.Base.{ℕ, Bool, ◌&&◌, ◌||◌, Option, List, [], ◌∷◌, String, leb, is_some}
use jebao_flow_engine.Base.Dict.{Dict}
use jebao_flow_engine.Base.Result.{Result, ok, ◌>>◌, ensure, value_error}
use jebao_flow_engine.Config.{DeviceType, RuntimeMode}
use jebao_flow_engine.Floats.{Floats}
use jebao_flow_engine.Groups.{PatternKind, GroupState, GroupMemberRole, holds_of}
use jebao_flow_engine.Protocol.Models.{DeviceSchedule}
use jebao_flow_engine.Protocol.Value.{Value}

pub data GroupAction : Type 0 where
  start_feed stop_feed emergency_stop clear_emergency resume_all_members : GroupAction

pub data DeviceAction : Type 0 where
  resume_group : DeviceAction

pub data DeviceControlMode : Type 0 where
  group manual_override standalone : DeviceControlMode

pub data ObservationSource : Type 0 where
  lan_poll simulator : ObservationSource

pub data ChangeSource : Type 0 where
  external_or_native home_assistant flowd_scheduler unknown : ChangeSource

pub record GroupCommand (Float : Type 0) : Type 0 where
  pub request_id : String
  pub source : String
  pub enabled : Option Bool
  pub pattern : Option PatternKind
  pub power : Option ℕ
  pub min_power : Option ℕ
  pub max_power : Option ℕ
  pub period_seconds : Option Float
  pub transition_seconds : Option Float
  pub action : Option GroupAction

pub record GroupMemberState (Float : Type 0) : Type 0 where
  pub name : String
  pub role : GroupMemberRole
  pub gain : Float
  pub phase : Float
  pub control_mode : DeviceControlMode
  pub enabled : Bool
  pub target_power : ℕ
  pub actual_enabled : Option Bool
  pub actual_power : Option ℕ
  pub actual_mode : Option String
  pub actual_frequency : Option ℕ
  pub online : Option Bool
  pub error : Option String
  pub last_seen_at : Option ℕ
  pub last_changed_at : Option ℕ
  pub last_configuration_changed_at : Option ℕ
  pub observed_attributes : Dict Value

pub record GroupStatePayload (Float : Type 0) : Type 0 where
  pub revision : ℕ
  pub group_id : String
  pub name : String
  pub status : GroupState
  pub enabled : Bool
  pub pattern : PatternKind
  pub power : ℕ
  pub min_power : ℕ
  pub max_power : ℕ
  pub period_seconds : Float
  pub transition_seconds : Float
  pub hardware_writes_locked : Bool
  pub members : Dict (GroupMemberState Float)
  pub actual_enabled : Option Bool
  pub online_member_count : ℕ
  pub member_count : ℕ
  pub last_seen_at : Option ℕ
  pub last_changed_at : Option ℕ
  pub last_configuration_changed_at : Option ℕ
  pub last_request_id : Option String

pub record GroupCommandResult : Type 0 where
  pub request_id : String
  pub group_id : String
  pub accepted : Bool
  pub revision : ℕ
  pub reason : Option String

pub record DeviceCommand : Type 0 where
  pub request_id : String
  pub source : String
  pub enabled : Option Bool
  pub power : Option ℕ
  pub action : Option DeviceAction

pub record DeviceStatePayload : Type 0 where
  pub revision : ℕ
  pub device_id : String
  pub name : String
  pub type : DeviceType
  pub enabled : Bool
  pub power : ℕ
  pub actual_enabled : Option Bool
  pub actual_power : Option ℕ
  pub actual_mode : Option String
  pub actual_frequency : Option ℕ
  pub online : Option Bool
  pub error : Option String
  pub last_seen_at : Option ℕ
  pub last_changed_at : Option ℕ
  pub last_configuration_changed_at : Option ℕ
  pub observed_attributes : Dict Value
  pub schedule : Option DeviceSchedule
  pub observation_source : Option ObservationSource
  pub change_source : ChangeSource
  pub status : String
  pub control_mode : DeviceControlMode
  pub group_ids : List String
  pub hardware_writes_locked : Bool
  pub last_request_id : Option String

pub record DeviceCommandResult : Type 0 where
  pub request_id : String
  pub device_id : String
  pub accepted : Bool
  pub revision : ℕ
  pub reason : Option String

-- The constraints of `DeviceCommand`, but for the form of its texts, and `validate_change`.
unfoldable pub check_device_command : DeviceCommand → Result (Unit {0})
check_device_command c = do
  ensure (holds_of (λ n. leb n 100) c.power) value_error
  ensure (is_some c.enabled || is_some c.power || is_some c.action) value_error

module _ (F : Floats) where
  open F use {Float, of_nat, lt, le}

  -- `Field(ge=lower, le=upper)`
  abbrev pub is_between : Float → Float → Float → Bool
  is_between lower upper value = le lower value && le value upper

  -- The constraints of `GroupCommand`, but for the form of its texts, and `validate_change`.
  unfoldable pub check_group_command : GroupCommand Float → Result (Unit {0})
  check_group_command c = do
    ensure (holds_of (λ n. leb n 100) c.power) value_error
    ensure (holds_of (λ n. leb n 100) c.min_power) value_error
    ensure (holds_of (λ n. leb n 100) c.max_power) value_error
    ensure (holds_of (is_between (of_nat 1) (of_nat 86400)) c.period_seconds) value_error
    ensure (holds_of (is_between (of_nat 0) (of_nat 3600)) c.transition_seconds) value_error
    ensure
        (is_some c.enabled
          || is_some c.pattern
          || is_some c.power
          || is_some c.min_power
          || is_some c.max_power
          || is_some c.period_seconds
          || is_some c.transition_seconds
          || is_some c.action)
        value_error

  unfoldable pub check_member : GroupMemberState Float → Result (Unit {0})
  check_member m = do
    ensure (lt (of_nat 0) m.gain && le m.gain (of_nat 10)) value_error
    ensure (le (of_nat 0) m.phase && lt m.phase (of_nat 360)) value_error
    ensure (leb m.target_power 100) value_error
    ensure (holds_of (λ n. leb n 100) m.actual_power) value_error
    ensure (holds_of (λ n. leb n 100) m.actual_frequency) value_error

  unfoldable pub check_members : Dict (GroupMemberState Float) → Result (Unit {0})
  check_members [] = ok tt
  check_members ((device, m) ∷ members) = check_member m >> check_members members

  unfoldable pub check_group_state : GroupStatePayload Float → Result (Unit {0})
  unfolding check_members
  check_group_state s = do
    ensure (leb s.power 100) value_error
    ensure (leb s.min_power 100) value_error
    ensure (leb s.max_power 100) value_error
    ensure (is_between (of_nat 1) (of_nat 86400) s.period_seconds) value_error
    ensure (is_between (of_nat 0) (of_nat 3600) s.transition_seconds) value_error
    check_members s.members

unfoldable pub check_device_state : DeviceStatePayload → Result (Unit {0})
check_device_state s = do
  ensure (leb s.power 100) value_error
  ensure (holds_of (λ n. leb n 100) s.actual_power) value_error
  ensure (holds_of (λ n. leb n 100) s.actual_frequency) value_error

pub record GroupDescriptor : Type 0 where
  pub id : String
  pub name : String

pub record DeviceDescriptor : Type 0 where
  pub id : String
  pub name : String
  pub type : DeviceType
  pub grouped : Bool
  pub ui : String
  pub controls : List String
  pub observables : List String
  pub min_power : ℕ
  pub max_power : ℕ

unfoldable pub check_device_descriptor : DeviceDescriptor → Result (Unit {0})
check_device_descriptor d = do
  ensure (leb d.min_power 100) value_error
  ensure (leb d.max_power 100) value_error

pub record SystemConfigPayload : Type 0 where
  pub instance_id : String
  pub name : String
  pub runtime_mode : RuntimeMode
  pub groups : List GroupDescriptor
  pub devices : List DeviceDescriptor
  pub patterns : List PatternKind
  pub features : List String
