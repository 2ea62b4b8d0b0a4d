-- ===== src/Mqtt/Service/Overrides.antt =====
-- mqtt/service.py: `apply_device`, the commands for one device. The answer is the new state with the
-- command's result.
use jebao_flow_engine.Base.{
  ℕ, ◌+◌, Bool, true, false, not, ◌&&◌, leb, if◌then◌else◌, none, some, List, [], ◌∷◌, String,
  str_eq, is_some, any, get_elem?,
}
use jebao_flow_engine.Base.Dict.{Dict, lookup, insert}
use jebao_flow_engine.Base.Result.{Result, ok, ◌>>=◌, require, key_error, index_error}
use jebao_flow_engine.Config.{AppConfig, DeviceType, dosing_pump, is_observer}
use jebao_flow_engine.Floats.{Floats}
use jebao_flow_engine.Groups.{holds_of}
use jebao_flow_engine.Mqtt.Models.{
  GroupStatePayload, DeviceCommand, DeviceCommandResult, DeviceStatePayload, manual_override,
}
use jebao_flow_engine.Mqtt.Service.{
  Service, set_device_states, is_emergency_stop, remember_device, device_config, calculate_targets,
  refresh_group_members, is_grouped,
}
use jebao_flow_engine.Patterns.Interface.{Calculator}
use jebao_flow_engine.Patterns.{or_default}
use jebao_flow_engine.Mqtt.Service.Commands.{controlled}

abbrev pub is_dosing_pump : DeviceType → Bool
is_dosing_pump dosing_pump = true
is_dosing_pump _ = false

abbrev pub is_empty {ℓ} : {A : Type ℓ} → List A → Bool
is_empty [] = true
is_empty (a ∷ items) = false

module _ {Float : Type 0} where
  unfoldable pub reject_device :
      String → ℕ → DeviceCommand → String → Service Float → Service Float × DeviceCommandResult
  reject_device device_id revision c reason s =
      let r : DeviceCommandResult = record {
        request_id = c.request_id;
        device_id = device_id;
        accepted = false;
        revision = revision;
        reason = some reason;
      } in
      (remember_device r s, r)

  unfoldable pub accept_device :
      String → ℕ → DeviceCommand → Service Float → Service Float × DeviceCommandResult
  accept_device device_id revision c s =
      let r : DeviceCommandResult = record {
        request_id = c.request_id;
        device_id = device_id;
        accepted = true;
        revision = revision;
        reason = none;
      } in
      (remember_device r s, r)

module _ (F : Floats) (C : Calculator F) (config : AppConfig F.Float) (clock : ℕ → F.Float) where
  open F use {Float}

  -- `any(self._states[group_id].status is EMERGENCY_STOP for group_id in group_ids)`
  unfoldable pub any_emergency_stop : List String → Dict (GroupStatePayload Float) → Result Bool
  any_emergency_stop [] states = ok false
  any_emergency_stop (group_id ∷ group_ids) states = do
    state ← require key_error (lookup group_id states)
    elim (is_emergency_stop state.status) [
      | true ↦ ok true
      | false ↦ any_emergency_stop group_ids states
    ]

  unfoldable pub device_controls : String → Result (List String)
  device_controls device_id = do
    device ← device_config F C config device_id
    ok (
        if is_observer config.runtime.mode
        then []
        else if is_dosing_pump device.type
        then "status" ∷ []
        else if is_grouped F C config device_id
        then "enabled" ∷ "power" ∷ "resume_group" ∷ []
        else "enabled" ∷ "power" ∷ [])

  -- `for group_id in group_ids: self._refresh_group_members(group_id, increment_revision=True)`
  unfoldable pub refresh_groups : ℕ → List String → Service Float → Result (Service Float)
  refresh_groups tick [] s = ok s
  refresh_groups tick (group_id ∷ group_ids) s = do
    refreshed ← refresh_group_members F C config (clock tick) group_id true s
    refresh_groups (tick + 1) group_ids refreshed

  -- The end of `apply_device`, for the device's new state.
  unfoldable pub apply_device_change :
      String
      → DeviceCommand
      → DeviceStatePayload
      → Service Float
      → Result (Service Float × DeviceCommandResult)
  unfolding refresh_groups accept_device
  apply_device_change device_id c updated s = do
    refreshed ←
        refresh_groups 1 updated.group_ids
          (set_device_states (insert device_id updated s.device_states) s)
    ok (accept_device device_id updated.revision c refreshed)

  -- The branch of `RESUME_GROUP`.
  unfoldable pub resume_device :
      String
      → DeviceCommand
      → DeviceStatePayload
      → Service Float
      → Result (Service Float × DeviceCommandResult)
  unfolding controlled apply_device_change
  resume_device device_id c current s = do
    group_id ← require index_error (get_elem? current.group_ids 0)
    state ← require key_error (lookup group_id s.states)
    targets ← calculate_targets F C config (clock 0) state
    target ← require key_error (lookup device_id targets)
    let updated : DeviceStatePayload = record (controlled target.enabled target.power current) {
      last_request_id = some c.request_id;
    }
    apply_device_change device_id c updated s

  -- The device's state after a command that overrides its fields.
  unfoldable pub override : DeviceCommand → DeviceStatePayload → DeviceStatePayload
  override c d =
      let is_free = is_empty d.group_ids in
      record d {
        revision = d.revision + 1;
        last_request_id = some c.request_id;
        enabled = or_default d.enabled c.enabled;
        power = or_default d.power c.power;
        control_mode = if is_free then d.control_mode else manual_override;
        status =
            if is_free
            then (if or_default d.enabled c.enabled then "running" else "stopped")
            else "manual_override";
      }

  -- `apply_device` for a known device in control mode with no stopped group.
  unfoldable pub apply_unlocked_device :
      String
      → DeviceCommand
      → DeviceStatePayload
      → Service Float
      → Result (Service Float × DeviceCommandResult)
  unfolding device_controls resume_device override reject_device apply_device_change
  apply_unlocked_device device_id c current s = do
    controls ← device_controls device_id
    device ← device_config F C config device_id
    elim (is_some c.action) [
      | true ↦
          if not (any (str_eq "resume_group") controls)
          then ok (reject_device current.device_id current.revision c "device_is_not_grouped" s)
          else resume_device device_id c current s
      | false ↦
          if is_some c.enabled && not (any (str_eq "enabled") controls)
          then ok
              (reject_device current.device_id current.revision c "enabled_control_unsupported" s)
          else if is_some c.power && not (any (str_eq "power") controls)
          then ok (reject_device current.device_id current.revision c "power_control_unsupported" s)
          else if not (
              holds_of (λ n. leb device.limits.min_power n && leb n device.limits.max_power)
                c.power)
          then ok
              (reject_device current.device_id current.revision c "power_outside_device_limits" s)
          else apply_device_change device_id c (override c current) s
    ]

  unfoldable pub apply_known_device :
      String
      → DeviceCommand
      → DeviceStatePayload
      → Service Float
      → Result (Service Float × DeviceCommandResult)
  unfolding any_emergency_stop apply_unlocked_device reject_device
  apply_known_device device_id c current s =
      if is_observer config.runtime.mode
      then ok (reject_device current.device_id current.revision c "observer_mode_read_only" s)
      else (do
        locked ← any_emergency_stop current.group_ids s.states
        if locked
            then ok
                (reject_device current.device_id current.revision c "group_emergency_stop_locked" s)
            else apply_unlocked_device device_id c current s)

  unfoldable pub apply_device :
      String → DeviceCommand → Service Float → Result (Service Float × DeviceCommandResult)
  unfolding apply_known_device reject_device
  apply_device device_id c s = elim (lookup c.request_id s.device_results) [
    | some previous ↦ ok (s, previous)
    | none ↦ elim (lookup device_id s.device_states) [
      | none ↦ ok (reject_device device_id 0 c "unknown_device" s)
      | some current ↦ apply_known_device device_id c current s
    ]
  ]
