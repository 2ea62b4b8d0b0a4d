-- ===== src/Mqtt/Service.antt =====
-- mqtt/service.py: the state of `GroupControlService` and the helpers of its operations, which are
-- in the child modules. `clock i` is the (i + 1)-th reading of `time.monotonic()` in an operation.
pub mod Startup
pub mod Commands
pub mod Overrides
pub mod Results
pub mod Changes
pub mod Emergency
pub mod DeviceLimits
pub mod Stopped
pub mod Desired
pub mod Steps
pub mod Release
pub mod Keys
pub mod KeyedRuns
pub mod Merge
pub mod Observation
pub mod Description
pub mod Described
use jebao_flow_engine.Base.{
  ℕ, ◌+◌, Bool, true, false, not, ◌&&◌, ◌||◌, ltb, if◌then◌else◌, Option, none, some, List, [], ◌∷◌,
  ◌++◌, String, str_eq, length, any, is_some,
}
use jebao_flow_engine.Base.Dict.{Dict, lookup, insert}
use jebao_flow_engine.Base.Result.{Result, ok, err, ◌>>=◌, ◌>>◌, require, key_error, stop_iteration}
use jebao_flow_engine.Config.{AppConfig, DeviceConfig, is_observer}
use jebao_flow_engine.Floats.{Floats}
use jebao_flow_engine.Groups.{
  GroupConfig, GroupMember, GroupRuntime, GroupState, PatternKind, constant, check_runtime,
}
use jebao_flow_engine.Mqtt.Models.{
  GroupCommandResult, GroupMemberState, GroupStatePayload, DeviceCommandResult, DeviceControlMode,
  DeviceStatePayload, group, manual_override, check_member,
}
use jebao_flow_engine.Patterns.Interface.{Calculator}
use jebao_flow_engine.Protocol.Models.{DeviceTarget}

pub record Service (Float : Type 0) : Type 0 where
  pub states : Dict (GroupStatePayload Float)
  pub results : Dict GroupCommandResult
  pub device_states : Dict DeviceStatePayload
  pub device_results : Dict DeviceCommandResult
  pub dirty_devices : List String
  pub dirty_groups : List String
  pub last_published_seen_at : Dict (Option ℕ)
  pub is_update_event_set : Bool

abbrev pub is_manual : DeviceControlMode → Bool
is_manual manual_override = true
is_manual _ = false

abbrev pub is_emergency_stop : GroupState → Bool
is_emergency_stop GroupState.emergency_stop = true
is_emergency_stop _ = false

abbrev pub max_deduplication_entries : ℕ
max_deduplication_entries = 512

-- `del d[key]` of a key that may be missing
unfoldable pub remove {ℓ} : {V : Type ℓ} → String → Dict V → Dict V
remove key [] = []
remove key ((k, v) ∷ d) = let rest = remove key d in if str_eq k key then rest else (k, v) ∷ rest

-- `d[key] = value; d.move_to_end(key)`
unfoldable pub push_last {ℓ} : {V : Type ℓ} → String → V → Dict V → Dict V
push_last key value d = remove key d ++ ((key, value) ∷ [])

-- `while len(d) > limit: d.popitem(last=False)`
unfoldable pub drop_oldest {ℓ} : {V : Type ℓ} → ℕ → Dict V → Dict V
drop_oldest limit [] = []
drop_oldest limit (entry ∷ d) =
    let rest = drop_oldest limit d in if ltb limit (length (entry ∷ d)) then rest else entry ∷ d

-- `{item.id: item for item in items}`
unfoldable pub index_by {ℓ κ} :
    {A : Type ℓ} {V : Type κ} → (A → String) → (A → V) → List A → Dict V → Dict V
index_by key value [] d = d
index_by key value (a ∷ items) d = index_by key value items (insert (key a) (value a) d)

-- `next(device for device in devices if device.id == device_id)`
unfoldable pub find_device : List DeviceConfig → String → Result DeviceConfig
find_device [] device_id = err stop_iteration
find_device (d ∷ devices) device_id =
    let rest = find_device devices device_id in if str_eq d.id device_id then ok d else rest

module _ {Float : Type 0} where
  abbrev pub set_states : Dict (GroupStatePayload Float) → Service Float → Service Float
  set_states states s = record s { states = states }

  abbrev pub set_device_states : Dict DeviceStatePayload → Service Float → Service Float
  set_device_states devices s = record s { device_states = devices }

  -- `_remember` and `_remember_device`
  unfoldable pub remember : GroupCommandResult → Service Float → Service Float
  unfolding push_last drop_oldest
  remember r s = record s {
    results = drop_oldest max_deduplication_entries (push_last r.request_id r s.results);
  }

  unfoldable pub remember_device : DeviceCommandResult → Service Float → Service Float
  unfolding push_last drop_oldest
  remember_device r s = record s {
    device_results =
        drop_oldest max_deduplication_entries (push_last r.request_id r s.device_results);
  }

module _ (F : Floats) (C : Calculator F) (config : AppConfig F.Float) where
  open F use {Float, of_nat}

  unfoldable pub device_config : String → Result DeviceConfig
  unfolding find_device
  device_config device_id = find_device config.devices device_id

  -- `self._groups`
  unfoldable pub groups : Dict (GroupConfig Float)
  unfolding index_by
  groups = index_by (λ g. g.id) (λ g. g) config.groups []

  -- The pattern that `_calculate_targets` asks for.
  unfoldable pub target_pattern : PatternKind → PatternKind
  target_pattern kind =
      if is_observer config.runtime.mode && not (C.supports kind) then constant else kind

  unfoldable pub runtime_of : GroupStatePayload Float → GroupRuntime Float
  unfolding target_pattern
  runtime_of state = record {
    state = state.status;
    enabled = some state.enabled;
    pattern = some (target_pattern state.pattern);
    power = some state.power;
    min_power = some state.min_power;
    max_power = some state.max_power;
    period_seconds = some state.period_seconds;
    started_at = of_nat 0;
  }

  unfoldable pub calculate_targets : Float → GroupStatePayload Float → Result (Dict DeviceTarget)
  unfolding groups runtime_of
  calculate_targets now state = do
    g ← require key_error (lookup state.group_id groups)
    check_runtime F (runtime_of state)
    C.targets now g (runtime_of state)

  -- The entry of a member with a target, from its device's state where there is one.
  unfoldable pub member_state :
      GroupMember Float → DeviceTarget → Option DeviceStatePayload → Result (GroupMemberState Float)
  unfolding device_config
  member_state m target none = do
    d ← device_config m.device
    let entry : GroupMemberState Float = record {
      name = d.name;
      role = m.role;
      gain = m.gain;
      phase = m.phase;
      control_mode = group;
      enabled = target.enabled;
      target_power = target.power;
      actual_enabled = none;
      actual_power = none;
      actual_mode = none;
      actual_frequency = none;
      online = none;
      error = none;
      last_seen_at = none;
      last_changed_at = none;
      last_configuration_changed_at = none;
      observed_attributes = [];
    }
    check_member F entry
    ok entry
  member_state m target (some s) = do
    d ← device_config m.device
    let manual = is_manual s.control_mode
    let entry : GroupMemberState Float = record {
      name = d.name;
      role = m.role;
      gain = m.gain;
      phase = m.phase;
      control_mode = if manual then manual_override else group;
      enabled = if manual then s.enabled else target.enabled;
      target_power = if manual then s.power else target.power;
      actual_enabled = s.actual_enabled;
      actual_power = s.actual_power;
      actual_mode = s.actual_mode;
      actual_frequency = s.actual_frequency;
      online = s.online;
      error = s.error;
      last_seen_at = s.last_seen_at;
      last_changed_at = s.last_changed_at;
      last_configuration_changed_at = s.last_configuration_changed_at;
      observed_attributes = s.observed_attributes;
    }
    check_member F entry
    ok entry

  unfoldable pub calculate_members_loop :
      Dict DeviceStatePayload
      → Dict DeviceTarget
      → List (GroupMember Float)
      → Dict (GroupMemberState Float)
      → Result (Dict (GroupMemberState Float))
  unfolding member_state
  calculate_members_loop devices targets [] calculated = ok calculated
  calculate_members_loop devices targets (m ∷ members) calculated = elim (lookup m.device targets) [
    | none ↦ calculate_members_loop devices targets members calculated
    | some target ↦ do
      entry ← member_state m target (lookup m.device devices)
      calculate_members_loop devices targets members (insert m.device entry calculated)
  ]

  unfoldable pub calculate_members :
      Float
      → Dict DeviceStatePayload
      → GroupStatePayload Float
      → Result (Dict (GroupMemberState Float))
  unfolding groups calculate_targets calculate_members_loop
  calculate_members now devices state = do
    g ← require key_error (lookup state.group_id groups)
    targets ← calculate_targets now state
    calculate_members_loop devices targets g.members []

  -- `_refresh_group_members`
  unfoldable pub refresh_group_members :
      Float → String → Bool → Service Float → Result (Service Float)
  unfolding calculate_members
  refresh_group_members now group_id increment_revision s = do
    state ← require key_error (lookup group_id s.states)
    members ← calculate_members now s.device_states state
    let next : GroupStatePayload Float = record state {
      revision = if increment_revision then state.revision + 1 else state.revision;
      members = members;
    }
    ok (set_states (insert group_id next s.states) s)

  -- `any(member.device == device_id for group in groups for member in group.members)`
  unfoldable pub is_grouped : String → Bool
  is_grouped device_id = any (λ g. any (λ m. str_eq m.device device_id) g.members) config.groups
