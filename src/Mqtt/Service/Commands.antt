-- ===== src/Mqtt/Service/Commands.antt =====
-- mqtt/service.py: `apply` of group commands. The answer of an operation is the new state with the
-- command's result.
use jebao_flow_engine.Base.{
  ℕ, ◌+◌, Bool, true, false, not, ◌&&◌, ◌||◌, leb, ltb, if◌then◌else◌, Option, none, some, [], ◌∷◌,
  String, is_some,
}
use jebao_flow_engine.Base.Dict.{Dict, lookup, insert}
use jebao_flow_engine.Base.Result.{Result, ok, ◌>>=◌, ◌>>◌, require, key_error}
use jebao_flow_engine.Config.{AppConfig, is_observer}
use jebao_flow_engine.Floats.{Floats}
use jebao_flow_engine.Groups.{GroupState, stopped, running, feeding, holds_of}
use jebao_flow_engine.Mqtt.Models.{
  GroupAction, GroupCommand, GroupMemberState, GroupStatePayload, GroupCommandResult,
  DeviceStatePayload, start_feed, emergency_stop, clear_emergency, resume_all_members, group,
  check_group_state,
}
use jebao_flow_engine.Mqtt.Service.{
  Service, set_states, set_device_states, is_manual, is_emergency_stop, remember, groups,
  calculate_targets, calculate_members, refresh_group_members,
}
use jebao_flow_engine.Patterns.Interface.{Calculator}
use jebao_flow_engine.Patterns.{or_default}
use jebao_flow_engine.Protocol.Models.{DeviceTarget}

abbrev pub is_clear : Option GroupAction → Bool
is_clear (some clear_emergency) = true
is_clear _ = false

abbrev pub is_stop : Option GroupAction → Bool
is_stop (some emergency_stop) = true
is_stop _ = false

-- `command.action in {START_FEED, EMERGENCY_STOP, RESUME_ALL_MEMBERS}`
abbrev pub forces_group : Option GroupAction → Bool
forces_group (some start_feed) = true
forces_group (some emergency_stop) = true
forces_group (some resume_all_members) = true
forces_group _ = false

-- The status after a command, from the action, whether the group is then enabled, and the status before.
unfoldable pub next_status : Option GroupAction → Bool → GroupState → GroupState
next_status (some start_feed) enabled current = feeding
next_status (some emergency_stop) enabled current = GroupState.emergency_stop
next_status (some clear_emergency) enabled current = stopped
next_status (some resume_all_members) enabled current = current
next_status _ enabled current = if enabled then running else stopped

-- The device's state once its group has taken control of it.
unfoldable pub controlled : Bool → ℕ → DeviceStatePayload → DeviceStatePayload
controlled enabled power d = record d {
  revision = d.revision + 1;
  enabled = enabled;
  power = power;
  status = "group_control";
  control_mode = group;
}

-- The power that `_sync_group_devices` writes.
unfoldable pub sync_power : Bool → Dict DeviceTarget → String → ℕ → Result ℕ
sync_power true raw_targets device_id target_power = do
  target ← require key_error (lookup device_id raw_targets)
  ok target.power
sync_power false raw_targets device_id target_power = ok target_power

module _ {Float : Type 0} where
  -- The fields of the command that are not None, written over the state's.
  unfoldable pub merge : GroupCommand Float → GroupStatePayload Float → GroupStatePayload Float
  merge c s = record s {
    enabled = or_default s.enabled c.enabled;
    pattern = or_default s.pattern c.pattern;
    power = or_default s.power c.power;
    min_power = or_default s.min_power c.min_power;
    max_power = or_default s.max_power c.max_power;
    period_seconds = or_default s.period_seconds c.period_seconds;
    transition_seconds = or_default s.transition_seconds c.transition_seconds;
  }

  -- The updates after the range checks.
  unfoldable pub commit :
      GroupCommand Float
      → GroupStatePayload Float
      → GroupStatePayload Float
      → GroupStatePayload Float
  unfolding next_status
  commit c current merged = record merged {
    enabled = if is_stop c.action then false else merged.enabled;
    status = next_status c.action merged.enabled current.status;
    revision = current.revision + 1;
    last_request_id = some c.request_id;
  }

  unfoldable pub reject :
      String → ℕ → GroupCommand Float → String → Service Float → Service Float × GroupCommandResult
  reject group_id revision c reason s =
      let r : GroupCommandResult = record {
        request_id = c.request_id;
        group_id = group_id;
        accepted = false;
        revision = revision;
        reason = some reason;
      } in
      (remember r s, r)

  unfoldable pub accept :
      String → ℕ → GroupCommand Float → Service Float → Service Float × GroupCommandResult
  accept group_id revision c s =
      let r : GroupCommandResult = record {
        request_id = c.request_id;
        group_id = group_id;
        accepted = true;
        revision = revision;
        reason = none;
      } in
      (remember r s, r)

  -- The loop of `_sync_group_devices`.
  unfoldable pub sync_devices_loop :
      Bool
      → Bool
      → Dict DeviceTarget
      → Dict (GroupMemberState Float)
      → Dict DeviceStatePayload
      → Result (Dict DeviceStatePayload)
  unfolding controlled sync_power
  sync_devices_loop force enabled raw_targets [] devices = ok devices
  sync_devices_loop force enabled raw_targets ((device_id, m) ∷ members) devices = do
    current ← require key_error (lookup device_id devices)
    elim (is_manual current.control_mode && not force) [
      | true ↦ sync_devices_loop force enabled raw_targets members devices
      | false ↦ do
        power ← sync_power force raw_targets device_id m.target_power
        sync_devices_loop force enabled raw_targets members
            (insert device_id (controlled enabled power current) devices)
    ]

module _ (F : Floats) (C : Calculator F) (config : AppConfig F.Float) (clock : ℕ → F.Float) where
  open F use {Float}

  -- `_sync_group_devices`
  unfoldable pub sync_group_devices : Float → String → Bool → Service Float → Result (Service Float)
  unfolding sync_devices_loop
  sync_group_devices now group_id force s = do
    state ← require key_error (lookup group_id s.states)
    raw_targets ← calculate_targets F C config now state
    devices ← sync_devices_loop force state.enabled raw_targets state.members s.device_states
    ok (set_device_states devices s)

  -- `apply` after the guards, for the state that the command asks for.
  unfoldable pub apply_change :
      String
      → GroupCommand Float
      → GroupStatePayload Float
      → Service Float
      → Result (Service Float × GroupCommandResult)
  unfolding accept sync_group_devices
  apply_change group_id c next s = do
    check_group_state F next
    members ← calculate_members F C config (clock 0) s.device_states next
    let updated : GroupStatePayload Float = record next { members = members }
    let written = set_states (insert group_id updated s.states) s
    synced ←
        sync_group_devices (clock 1) group_id (is_some c.enabled || forces_group c.action) written
    refreshed ← refresh_group_members F C config (clock 2) group_id false synced
    ok (accept group_id updated.revision c refreshed)

  -- `apply` for a known group in control mode.
  unfoldable pub apply_group :
      String
      → GroupCommand Float
      → GroupStatePayload Float
      → Service Float
      → Result (Service Float × GroupCommandResult)
  unfolding merge commit reject apply_change
  apply_group group_id c current s =
      let merged = merge c current in
      if not (holds_of C.supports c.pattern)
      then ok (reject current.group_id current.revision c "unsupported_pattern" s)
      else if is_emergency_stop current.status && not (is_clear c.action)
      then ok (reject group_id current.revision c "emergency_stop_locked" s)
      else if ltb merged.max_power merged.min_power
      then ok (reject current.group_id current.revision c "min_power_exceeds_max_power" s)
      else if merged.enabled
          && not (leb merged.min_power merged.power && leb merged.power merged.max_power)
      then ok (reject current.group_id current.revision c "power_outside_active_limits" s)
      else apply_change group_id c (commit c current merged) s

  unfoldable pub apply :
      String → GroupCommand Float → Service Float → Result (Service Float × GroupCommandResult)
  unfolding apply_group reject
  apply group_id c s = elim (lookup c.request_id s.results) [
    | some previous ↦ ok (s, previous)
    | none ↦ elim (lookup group_id (groups F C config)) [
      | none ↦ ok (reject group_id 0 c "unknown_group" s)
      | some g ↦ do
        current ← require key_error (lookup group_id s.states)
        if is_observer config.runtime.mode
            then ok (reject group_id current.revision c "observer_mode_read_only" s)
            else apply_group group_id c current s
    ]
  ]
