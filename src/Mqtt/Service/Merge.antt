-- ===== src/Mqtt/Service/Merge.antt =====
-- mqtt/service.py: what an observation makes of a device's state.
use jebao_flow_engine.Base.{
  Bool, true, false, not, ◌&&◌, ◌||◌, ◌==◌, if◌then◌else◌, Option, none, some, List, [], ◌∷◌,
  String, str_eq, is_some, all, length, option_eq,
}
use jebao_flow_engine.Base.Dict.{Dict, lookup}
use jebao_flow_engine.Devices.Observer.{ObserverStatus}
use jebao_flow_engine.Mqtt.Models.{DeviceStatePayload, lan_poll, external_or_native}
use jebao_flow_engine.Protocol.Models.{DeviceState, DeviceSchedule, ScheduleEntry}
use jebao_flow_engine.Protocol.Value.{Value, value_eq, bool_eq, bytes_eq}

-- `==` of two dicts: the order of the entries does not count.
unfoldable pub dict_eq : Dict Value → Dict Value → Bool
dict_eq d e =
    length d == length e && all (λ entry. option_eq value_eq (lookup entry.0 e) (some entry.1)) d

unfoldable pub entry_eq : ScheduleEntry → ScheduleEntry → Bool
unfolding dict_eq
entry_eq a b =
    a.slot == b.slot
    && bytes_eq a.start b.start
    && bytes_eq a.stop b.stop
    && str_eq a.mode b.mode
    && a.mode_code == b.mode_code
    && dict_eq a.parameters b.parameters

abbrev pub list_eq {ℓ} : {A : Type ℓ} → (A → A → Bool) → List A → List A → Bool
list_eq same [] [] = true
list_eq same (a ∷ items) (b ∷ others) = same a b && list_eq same items others
list_eq same _ _ = false

-- `_schedule_configuration(a) == _schedule_configuration(b)`: all the fields but `device_local_time`.
unfoldable pub schedule_configuration_eq : Option DeviceSchedule → Option DeviceSchedule → Bool
unfolding entry_eq
schedule_configuration_eq = option_eq (λ a b.
    bool_eq a.enabled b.enabled
    && a.slot_capacity == b.slot_capacity
    && list_eq entry_eq a.entries b.entries
    && bytes_eq a.invalid_slots b.invalid_slots)

-- `bool(text)` of a text that may be None
unfoldable pub has_text : Option String → Bool
has_text none = false
has_text (some text) = not (str_eq text "")

unfoldable pub observed_status : DeviceState → String
unfolding has_text
observed_status state =
    if has_text state.error then "error" else if state.enabled then "running" else "stopped"

-- A device's new state but for its revision, and whether the change is semantic.
pub record Merged : Type 0 where
  pub semantic_changed : Bool
  pub updated : DeviceStatePayload

unfoldable pub operational_changed : DeviceStatePayload → DeviceState → Bool
operational_changed current state =
    is_some current.last_seen_at
    && not (
        option_eq bool_eq current.actual_enabled (some state.enabled)
        && option_eq (λ a b. a == b) current.actual_power (some state.power)
        && option_eq str_eq current.actual_mode (some state.mode)
        && option_eq (λ a b. a == b) current.actual_frequency state.frequency)

unfoldable pub configuration_changed : DeviceStatePayload → DeviceState → Bool
unfolding dict_eq schedule_configuration_eq
configuration_changed current state =
    is_some current.last_seen_at
    && (not (dict_eq current.observed_attributes state.observed_attributes)
        || not (schedule_configuration_eq current.schedule state.schedule))

-- The branch of a successful observation.
unfoldable pub merge_state : DeviceStatePayload → DeviceState → Merged
unfolding observed_status operational_changed configuration_changed
merge_state current state =
    let operational = operational_changed current state in
    let configuration = configuration_changed current state in
    let status = observed_status state in
    record {
      semantic_changed =
          not (is_some current.last_seen_at)
          || operational
          || configuration
          || not (
              option_eq bool_eq current.online (some true)
              && option_eq str_eq current.error state.error
              && str_eq current.status status);
      updated = record current {
        actual_enabled = some state.enabled;
        actual_power = some state.power;
        actual_mode = some state.mode;
        actual_frequency = state.frequency;
        online = some true;
        error = state.error;
        last_seen_at = some state.observed_at;
        observed_attributes = state.observed_attributes;
        schedule = state.schedule;
        observation_source = some lan_poll;
        status = status;
        last_changed_at = if operational then some state.observed_at else current.last_changed_at;
        last_configuration_changed_at =
            if configuration then some state.observed_at else current.last_configuration_changed_at;
        change_source =
            if operational || configuration then external_or_native else current.change_source;
      };
    }

unfoldable pub lost_online : ObserverStatus → Option Bool → Option Bool
lost_online ObserverStatus.unmapped current = none
lost_online ObserverStatus.connecting current = current
lost_online _ current = some false

unfoldable pub lost_status : ObserverStatus → String
lost_status ObserverStatus.unmapped = "unmapped"
lost_status ObserverStatus.connecting = "connecting"
lost_status _ = "offline"

-- The branch without a state.
unfoldable pub merge_loss : DeviceStatePayload → ObserverStatus → Option String → Merged
unfolding lost_online lost_status
merge_loss current status error =
    let online = lost_online status current.online in
    record {
      semantic_changed = not (
          option_eq bool_eq current.online online
          && option_eq str_eq current.error error
          && str_eq current.status (lost_status status));
      updated = record current { online = online; error = error; status = lost_status status };
    }
