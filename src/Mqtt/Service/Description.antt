-- ===== src/Mqtt/Service/Description.antt =====
-- mqtt/service.py: what `GroupControlService` tells its clients: the snapshots of its states, and
-- `system_config`.
use jebao_flow_engine.Base.{ℕ, if◌then◌else◌, List, [], ◌∷◌, String, keep}
use jebao_flow_engine.Base.Dict.{Dict, lookup}
use jebao_flow_engine.Base.Result.{Result, ok, ◌>>=◌, ◌>>◌, require, key_error}
use jebao_flow_engine.Config.{
  AppConfig, DeviceConfig, DeviceType, is_observer, wavemaker, return_pump, dosing_pump,
}
use jebao_flow_engine.Floats.{Floats}
use jebao_flow_engine.Groups.{
  GroupConfig, PatternKind, constant, sync, anti_phase, lagoon, reef_crest, gyre, tidal_swell,
  nutrient_transport, sine, random_reef, tide, native,
}
use jebao_flow_engine.Mqtt.Models.{
  DeviceDescriptor, DeviceStatePayload, GroupDescriptor, GroupStatePayload, SystemConfigPayload,
  check_device_descriptor,
}
use jebao_flow_engine.Mqtt.Service.{Service, device_config, is_grouped}
use jebao_flow_engine.Mqtt.Service.Overrides.{device_controls, is_dosing_pump}
use jebao_flow_engine.Patterns.Interface.{Calculator}

-- `tuple(d.values())`
unfoldable pub values {ℓ} : {V : Type ℓ} → Dict V → List V
values [] = []
values ((key, value) ∷ d) = value ∷ values d

module _ {Float : Type 0} where
  unfoldable pub snapshots : Service Float → List (GroupStatePayload Float)
  unfolding values
  snapshots s = values s.states

  unfoldable pub device_snapshots : Service Float → List DeviceStatePayload
  unfolding values
  device_snapshots s = values s.device_states

  unfoldable pub snapshot : String → Service Float → Result (GroupStatePayload Float)
  snapshot group_id s = require key_error (lookup group_id s.states)

  unfoldable pub device_snapshot : String → Service Float → Result DeviceStatePayload
  device_snapshot device_id s = require key_error (lookup device_id s.device_states)

  unfoldable pub describe_groups : List (GroupConfig Float) → List GroupDescriptor
  describe_groups [] = []
  describe_groups (g ∷ groups) = record { id = g.id; name = g.name } ∷ describe_groups groups

-- `PatternKind` in the order of its texts
abbrev pub sorted_kinds : List PatternKind
sorted_kinds =
    anti_phase ∷ constant ∷ gyre ∷ lagoon ∷ native ∷ nutrient_transport ∷ random_reef ∷ reef_crest
    ∷ sine ∷ sync ∷ tidal_swell ∷ tide ∷ []

unfoldable pub ui_of : DeviceType → String
ui_of wavemaker = "flow_member"
ui_of return_pump = "simple_equipment"
ui_of dosing_pump = "simple_equipment"

module _ (F : Floats) (C : Calculator F) (config : AppConfig F.Float) (clock : ℕ → F.Float) where
  open F use {Float}

  unfoldable pub device_observables : String → Result (List String)
  device_observables device_id = do
    device ← device_config F C config device_id
    ok (
        if is_dosing_pump device.type
        then "enabled" ∷ "error" ∷ "schedule" ∷ []
        else "enabled" ∷ "power" ∷ "mode" ∷ "frequency" ∷ "error" ∷ "schedule" ∷ [])

  unfoldable pub describe_device : DeviceConfig → Result DeviceDescriptor
  unfolding ui_of device_observables
  describe_device d = do
    controls ← device_controls F C config clock d.id
    observables ← device_observables d.id
    let descriptor : DeviceDescriptor = record {
      id = d.id;
      name = d.name;
      type = d.type;
      grouped = is_grouped F C config d.id;
      ui = ui_of d.type;
      controls = controls;
      observables = observables;
      min_power = d.limits.min_power;
      max_power = d.limits.max_power;
    }
    check_device_descriptor descriptor
    ok descriptor

  unfoldable pub describe_devices : List DeviceConfig → Result (List DeviceDescriptor)
  unfolding describe_device
  describe_devices [] = ok []
  describe_devices (d ∷ rest) = do
    descriptor ← describe_device d
    descriptors ← describe_devices rest
    ok (descriptor ∷ descriptors)

  unfoldable pub features : List String
  features =
      if is_observer config.runtime.mode
      then "observer" ∷ "hardware_write_lock" ∷ []
      else "feed" ∷ "emergency_stop" ∷ "hardware_write_lock" ∷ "individual_override" ∷ []

  unfoldable pub system_config : Result SystemConfigPayload
  unfolding describe_groups describe_devices features
  system_config = do
    devices ← describe_devices config.devices
    ok (record {
      instance_id = config.instance_config.id;
      name = config.instance_config.name;
      runtime_mode = config.runtime.mode;
      groups = describe_groups config.groups;
      devices = devices;
      patterns = keep C.supports sorted_kinds;
      features = features;
    })
