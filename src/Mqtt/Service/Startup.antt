-- ===== src/Mqtt/Service/Startup.antt =====
-- mqtt/service.py: the constructor of `GroupControlService`.
use jebao_flow_engine.Base.{
  ℕ, ◌+◌, Bool, true, false, not, ◌||◌, if◌then◌else◌, none, List, [], ◌∷◌, String, str_eq, any,
  length,
}
use jebao_flow_engine.Base.Dict.{Dict, lookup, insert}
use jebao_flow_engine.Base.Result.{Result, ok, ◌>>=◌, ◌>>◌, require, key_error}
use jebao_flow_engine.Config.{AppConfig, DeviceConfig, is_observer}
use jebao_flow_engine.Floats.{Floats}
use jebao_flow_engine.Groups.{GroupConfig, GroupMember, GroupState, running, starting, stopped}
use jebao_flow_engine.Mqtt.Models.{
  GroupStatePayload, DeviceStatePayload, ChangeSource, group, standalone, check_group_state,
  check_device_state,
}
use jebao_flow_engine.Mqtt.Service.{
  Service, device_config, calculate_members, refresh_group_members, index_by,
}
use jebao_flow_engine.Patterns.Interface.{Calculator}

module _ (F : Floats) (C : Calculator F) (config : AppConfig F.Float) (clock : ℕ → F.Float) where
  open F use {Float}

  -- `any(not self._device_config(member.device).control.allow_hardware_writes for member in members)`
  unfoldable pub any_locked : List (GroupMember Float) → Result Bool
  any_locked [] = ok false
  any_locked (m ∷ members) = do
    d ← device_config F C config m.device
    elim d.control.allow_hardware_writes [ true ↦ any_locked members | false ↦ ok true ]

  unfoldable pub initial_status : GroupConfig Float → GroupState
  initial_status g =
      if is_observer config.runtime.mode then starting else if g.enabled then running else stopped

  unfoldable pub initial_payload : GroupConfig Float → Bool → GroupStatePayload Float
  unfolding initial_status
  initial_payload g locked = record {
    revision = 0;
    group_id = g.id;
    name = g.name;
    status = initial_status g;
    enabled = g.enabled;
    pattern = g.default.pattern;
    power = g.default.power;
    min_power = g.default.min_power;
    max_power = g.default.max_power;
    period_seconds = g.default.period_seconds;
    transition_seconds = g.default.transition_seconds;
    hardware_writes_locked = locked;
    members = [];
    actual_enabled = none;
    online_member_count = 0;
    member_count = length g.members;
    last_seen_at = none;
    last_changed_at = none;
    last_configuration_changed_at = none;
    last_request_id = none;
  }

  -- `_initial_state`; there is no device state yet.
  unfoldable pub initial_state : Float → GroupConfig Float → Result (GroupStatePayload Float)
  unfolding any_locked initial_payload
  initial_state now g = do
    locked ← elim (is_observer config.runtime.mode || config.runtime.dry_run) [
      | true ↦ ok true
      | false ↦ any_locked g.members
    ]
    let state = initial_payload g locked
    check_group_state F state
    members ← calculate_members F C config now [] state
    let started : GroupStatePayload Float = record state { members = members }
    ok started

  unfoldable pub initial_states :
      ℕ
      → List (GroupConfig Float)
      → Dict (GroupStatePayload Float)
      → Result (Dict (GroupStatePayload Float))
  unfolding initial_state
  initial_states tick [] states = ok states
  initial_states tick (g ∷ groups) states = do
    state ← initial_state (clock tick) g
    initial_states (tick + 1) groups (insert g.id state states)

  -- `group_ids` of `_initial_device_state`
  unfoldable pub group_ids_of : String → List (GroupConfig Float) → List String
  group_ids_of device_id [] = []
  group_ids_of device_id (g ∷ groups) =
      let rest = group_ids_of device_id groups in
      if any (λ m. str_eq m.device device_id) g.members then g.id ∷ rest else rest

  -- Whether the first of a device's groups enables it, and the power the group wants of it.
  unfoldable pub initial_target :
      DeviceConfig → List String → Dict (GroupStatePayload Float) → Result (Bool × ℕ)
  initial_target d [] states = ok (false, d.limits.min_power)
  initial_target d (group_id ∷ group_ids) states = do
    state ← require key_error (lookup group_id states)
    m ← require key_error (lookup d.id state.members)
    ok (state.enabled, m.target_power)

  abbrev pub is_free : List String → Bool
  is_free [] = true
  is_free (g ∷ ids) = false

  -- `_initial_device_state`
  unfoldable pub initial_device_state :
      DeviceConfig → Dict (GroupStatePayload Float) → Result DeviceStatePayload
  unfolding group_ids_of initial_target
  initial_device_state d states = do
    let ids = group_ids_of d.id config.groups
    target ← initial_target d ids states
    let state : DeviceStatePayload = record {
      revision = 0;
      device_id = d.id;
      name = d.name;
      type = d.type;
      enabled = target.0;
      power = target.1;
      actual_enabled = none;
      actual_power = none;
      actual_mode = none;
      actual_frequency = none;
      online = none;
      error = none;
      last_seen_at = none;
      last_changed_at = none;
      last_configuration_changed_at = none;
      observed_attributes = [];
      schedule = none;
      observation_source = none;
      change_source = ChangeSource.unknown;
      status = "unobserved";
      control_mode = if is_free ids then standalone else group;
      group_ids = ids;
      hardware_writes_locked =
          is_observer config.runtime.mode
          || config.runtime.dry_run
          || not d.control.allow_hardware_writes;
      last_request_id = none;
    }
    check_device_state state
    ok state

  unfoldable pub initial_device_states :
      List DeviceConfig
      → Dict (GroupStatePayload Float)
      → Dict DeviceStatePayload
      → Result (Dict DeviceStatePayload)
  unfolding initial_device_state
  initial_device_states [] states devices = ok devices
  initial_device_states (d ∷ rest) states devices = do
    state ← initial_device_state d states
    initial_device_states rest states (insert d.id state devices)

  unfoldable pub refresh_all : ℕ → List (GroupConfig Float) → Service Float → Result (Service Float)
  refresh_all tick [] s = ok s
  refresh_all tick (g ∷ groups) s = do
    refreshed ← refresh_group_members F C config (clock tick) g.id false s
    refresh_all (tick + 1) groups refreshed

  -- `GroupControlService(config)`; the group ids of a valid configuration are distinct, so the keys
  -- of `_groups` are those of `config.groups` in order.
  unfoldable pub start : Result (Service Float)
  unfolding initial_states initial_device_states refresh_all
  start = do
    states ← initial_states 0 config.groups []
    devices ← initial_device_states config.devices states []
    let s : Service Float = record {
      states = states;
      results = [];
      device_states = devices;
      device_results = [];
      dirty_devices = [];
      dirty_groups = [];
      last_published_seen_at = index_by (λ d. d.id) (λ d. none) config.devices [];
      is_update_event_set = false;
    }
    refresh_all (length config.groups) config.groups s
