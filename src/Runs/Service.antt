-- ===== src/Runs/Service.antt =====
-- The service at one configuration: a group of one pump.
use jebao_flow_engine.Base.{
  ℕ, ◌+◌, ◌≤◌, ◌≡◌, refl, sym, ap, Bool, true, false, [], Option, none, some, String, str_eq, any,
  arith, length, All,
}
use jebao_flow_engine.Base.Dict.{lookup, insert}
use jebao_flow_engine.Base.Result.{ok}
use jebao_flow_engine.Config.{AppConfig, RuntimeMode, DeviceType}
use jebao_flow_engine.Devices.Observer.{ObserverEvent, ObserverStatus}
use jebao_flow_engine.Groups.{GroupRuntime, GroupState, PatternKind}
use jebao_flow_engine.Mqtt.Models.{
  GroupAction, GroupCommand, GroupCommandResult, GroupStatePayload, DeviceCommand,
  DeviceCommandResult, DeviceStatePayload, DeviceControlMode, ChangeSource,
}
use jebao_flow_engine.Mqtt.Service.{
  is_grouped, Service, groups, is_emergency_stop, index_by, remove, remember, remember_device,
}
use jebao_flow_engine.Mqtt.Service.Changes.{apply_again, apply-accepted, length-apply}
use jebao_flow_engine.Mqtt.Service.Commands.{merge, next_status, apply}
use jebao_flow_engine.Mqtt.Service.Desired.{SameDesire, record_observer_event-SameDesire}
use jebao_flow_engine.Mqtt.Service.DeviceLimits.{IsOverridden, apply_device-IsOverridden}
use jebao_flow_engine.Mqtt.Service.Emergency.{apply-emergency_stop, apply_device-emergency_stop}
use jebao_flow_engine.Mqtt.Service.Observation.{record_observer_event}
use jebao_flow_engine.Mqtt.Service.Keys.{IsKeyed}
use jebao_flow_engine.Mqtt.Service.KeyedRuns.{Reaches-IsKeyed}
use jebao_flow_engine.Mqtt.Service.Merge.{dict_eq}
use jebao_flow_engine.Mqtt.Service.Overrides.{apply_device}
use jebao_flow_engine.Mqtt.Service.Startup.{initial_payload}
use jebao_flow_engine.Mqtt.Service.Steps.{stay, go, applied, Reaches-SameDesire}
use jebao_flow_engine.Mqtt.Service.Stopped.{IsOff, apply-stops_members}
use jebao_flow_engine.Patterns.{is_group_enabled, effective_limits, effective_period, or_default}
use jebao_flow_engine.Patterns.Calculator.{calculate, is_supported}
use jebao_flow_engine.Patterns.Bounds.{calculate-IsBounded}
use jebao_flow_engine.Patterns.Returns.{HasCycles}
use jebao_flow_engine.Patterns.Targets.{IsBounded}
use jebao_flow_engine.Patterns.Interface.{pattern_calculator_laws}
use jebao_flow_engine.Protocol.Models.{DeviceState}
use jebao_flow_engine.Runs.Numbers.{hundredths, hundredths_laws}
use jebao_flow_engine.Safety.{PowerLimits, power_limits}
use jebao_flow_engine.Runs.Tank.{
  starts, config_in, reef, calculator, clock, controlled, value_of, nothing, started,
}

abbrev change : Option Bool → Option ℕ → Option GroupAction → String → GroupCommand ℕ
change is_on power_wanted wanted id = record {
  request_id = id;
  source = "home_assistant";
  enabled = is_on;
  pattern = none;
  power = power_wanted;
  min_power = none;
  max_power = none;
  period_seconds = none;
  transition_seconds = none;
  action = wanted;
}

abbrev stop_now : GroupCommand ℕ
stop_now = change none none (some GroupAction.emergency_stop) "request-1"

abbrev no_result : GroupCommandResult
no_result = record { request_id = ""; group_id = ""; accepted = false; revision = 0; reason = none }

-- The service after the emergency stop.
unfoldable stopped_run : Service ℕ × GroupCommandResult
unfolding started apply remove remember remember_device
stopped_run =
    value_of (nothing, no_result)
      (apply hundredths calculator controlled clock "reef" stop_now (started RuntimeMode.control))

stops :
    apply hundredths calculator controlled clock "reef" stop_now (started RuntimeMode.control)
    ≡ ok (stopped_run.0, stopped_run.1)
unfolding stopped_run
stops = refl

-- The state of the group in a service, and of the pump.
unfoldable group_in : Service ℕ → GroupStatePayload ℕ
unfolding initial_payload lookup
group_in s =
    or_default (initial_payload hundredths calculator controlled clock reef false)
      (lookup "reef" s.states)

abbrev pump_fallback : DeviceStatePayload
pump_fallback = record {
  revision = 0;
  device_id = "pump";
  name = "Pump";
  type = DeviceType.wavemaker;
  enabled = false;
  power = 0;
  actual_enabled = none;
  actual_power = none;
  actual_mode = none;
  actual_frequency = none;
  online = none;
  error = none;
  last_seen_at = none;
  last_changed_at = none;
  last_configuration_changed_at = none;
  observed_attributes = [];
  schedule = none;
  observation_source = none;
  change_source = ChangeSource.unknown;
  status = "";
  control_mode = DeviceControlMode.group;
  group_ids = [];
  hardware_writes_locked = false;
  last_request_id = none;
}

unfoldable pump_in : Service ℕ → DeviceStatePayload
unfolding lookup
pump_in s = or_default pump_fallback (lookup "pump" s.device_states)

abbrev before_stop : Service ℕ
before_stop = started RuntimeMode.control

fresh_stop : lookup "request-1" before_stop.results ≡ none
unfolding started
fresh_stop = refl

stop_accepted : stopped_run.1.accepted ≡ true
unfolding stopped_run
stop_accepted = refl

is_reef_known : lookup "reef" (groups hundredths calculator controlled) ≡ some reef
unfolding groups lookup insert index_by
is_reef_known = refl

is_keyed :
    (state : GroupStatePayload ℕ)
    → lookup "reef" before_stop.states ≡ some state
    → state.group_id ≡ "reef"
unfolding started
is_keyed state h = ap (λ o. (or_default state o).group_id) (sym h)

apply-stops_members_example :
    All (λ m. IsOff stopped_run.0.device_states m.device) reef.members
    × ((state : GroupStatePayload ℕ) × (lookup "reef" stopped_run.0.states ≡ some state)
        × (is_emergency_stop state.status ≡ true)
        × (state.enabled ≡ false))
apply-stops_members_example =
    apply-stops_members hundredths calculator controlled clock
      (pattern_calculator_laws hundredths hundredths_laws) "reef" stop_now before_stop stopped_run.0
      stopped_run.1 reef stops fresh_stop stop_accepted refl is_reef_known is_keyed

apply_again_example :
    apply hundredths calculator controlled clock "other" stop_now stopped_run.0
    ≡ ok (stopped_run.0, stopped_run.1)
apply_again_example =
    apply_again hundredths calculator controlled clock "reef" "other" stop_now stop_now before_stop
      stopped_run.0 stopped_run.1 stops refl

apply-accepted_example :
    (before : GroupStatePayload ℕ) × (after : GroupStatePayload ℕ) × (lookup "reef"
        before_stop.states
      ≡ some before)
    × (lookup "reef" stopped_run.0.states ≡ some after)
    × (after.revision ≡ before.revision + 1)
    × (stopped_run.1.revision ≡ after.revision)
    × (after.last_request_id ≡ some "request-1")
    × (after.status ≡ next_status stop_now.action (merge stop_now before).enabled before.status)
    × (after.min_power ≤ after.max_power)
    × (after.enabled ≡ true → (after.min_power ≤ after.power) × (after.power ≤ after.max_power))
apply-accepted_example =
    apply-accepted hundredths calculator controlled clock "reef" stop_now before_stop stopped_run.0
      stopped_run.1 stops fresh_stop stop_accepted

no_results_yet : length before_stop.results ≤ 512
unfolding started
no_results_yet = omega arith

length-apply_example : length stopped_run.0.results ≤ 512
length-apply_example =
    length-apply hundredths calculator controlled clock "reef" stop_now before_stop stopped_run.0
      stopped_run.1 stops no_results_yet

-- A command that would start the stopped group again.
abbrev start_again : GroupCommand ℕ
start_again = change (some true) none none "request-2"

unfoldable locked_run : Service ℕ × GroupCommandResult
unfolding stopped_run
locked_run =
    value_of (nothing, no_result)
      (apply hundredths calculator controlled clock "reef" start_again stopped_run.0)

locks :
    apply hundredths calculator controlled clock "reef" start_again stopped_run.0
    ≡ ok (locked_run.0, locked_run.1)
unfolding locked_run
locks = refl

fresh_start : lookup "request-2" stopped_run.0.results ≡ none
unfolding stopped_run
fresh_start = refl

finds_stopped : lookup "reef" stopped_run.0.states ≡ some (group_in stopped_run.0)
unfolding stopped_run group_in
finds_stopped = refl

is_stopped : is_emergency_stop (group_in stopped_run.0).status ≡ true
unfolding stopped_run group_in
is_stopped = refl

apply-emergency_stop_example :
    (locked_run.1.accepted ≡ false)
    × (locked_run.0.states ≡ stopped_run.0.states)
    × (locked_run.0.device_states ≡ stopped_run.0.device_states)
apply-emergency_stop_example =
    apply-emergency_stop hundredths calculator controlled clock "reef" start_again stopped_run.0
      locked_run.0 locked_run.1 (group_in stopped_run.0) locks fresh_start finds_stopped is_stopped
      refl

-- A command that would turn the pump on.
abbrev pump_on : DeviceCommand
pump_on = record {
  request_id = "request-3";
  source = "home_assistant";
  enabled = some true;
  power = some 50;
  action = none;
}

abbrev no_device_result : DeviceCommandResult
no_device_result = record {
  request_id = "";
  device_id = "";
  accepted = false;
  revision = 0;
  reason = none;
}

unfoldable pump_run : Service ℕ × DeviceCommandResult
unfolding stopped_run apply_device
pump_run =
    value_of (nothing, no_device_result)
      (apply_device hundredths calculator controlled clock "pump" pump_on stopped_run.0)

pump_locks :
    apply_device hundredths calculator controlled clock "pump" pump_on stopped_run.0
    ≡ ok (pump_run.0, pump_run.1)
unfolding pump_run
pump_locks = refl

fresh_pump : lookup "request-3" stopped_run.0.device_results ≡ none
unfolding stopped_run
fresh_pump = refl

finds_pump : lookup "pump" stopped_run.0.device_states ≡ some (pump_in stopped_run.0)
unfolding stopped_run pump_in
finds_pump = refl

is_pump_grouped : any (str_eq "reef") (pump_in stopped_run.0).group_ids ≡ true
unfolding stopped_run pump_in
is_pump_grouped = refl

apply_device-emergency_stop_example :
    (pump_run.1.accepted ≡ false)
    × (pump_run.0.states ≡ stopped_run.0.states)
    × (pump_run.0.device_states ≡ stopped_run.0.device_states)
apply_device-emergency_stop_example =
    apply_device-emergency_stop hundredths calculator controlled clock "pump" "reef" pump_on
      stopped_run.0 pump_run.0 pump_run.1 (pump_in stopped_run.0) (group_in stopped_run.0)
      pump_locks fresh_pump finds_pump is_pump_grouped finds_stopped is_stopped

abbrev poll_state : DeviceState
poll_state = record {
  online = true;
  enabled = true;
  power = 50;
  mode = "classic";
  frequency = none;
  error = none;
  schedule = none;
  observed_attributes = [];
  observed_at = 5;
}

-- A successful poll of the pump.
abbrev poll : ObserverEvent
poll = record {
  device_id = "pump";
  status = ObserverStatus.online;
  occurred_at = 5;
  state = some poll_state;
  error = none;
}

unfoldable polled : Service ℕ
unfolding stopped_run record_observer_event dict_eq
polled =
    value_of nothing
      (record_observer_event hundredths calculator controlled clock poll stopped_run.0)

polls : record_observer_event hundredths calculator controlled clock poll stopped_run.0 ≡ ok polled
unfolding polled
polls = refl

record_observer_event-SameDesire_example : SameDesire stopped_run.0 polled
record_observer_event-SameDesire_example =
    record_observer_event-SameDesire hundredths calculator controlled clock poll stopped_run.0
      polled polls

-- The same command in observer mode.
abbrev watched : AppConfig ℕ
watched = config_in RuntimeMode.observer

unfoldable watched_run : Service ℕ × GroupCommandResult
unfolding started apply remove remember
watched_run =
    value_of (nothing, no_result)
      (apply hundredths calculator watched clock "reef" stop_now (started RuntimeMode.observer))

watches :
    apply hundredths calculator watched clock "reef" stop_now (started RuntimeMode.observer)
    ≡ ok (watched_run.0, watched_run.1)
unfolding watched_run
watches = refl

Reaches-SameDesire_example : SameDesire (started RuntimeMode.observer) watched_run.0
Reaches-SameDesire_example =
    Reaches-SameDesire hundredths calculator watched (started RuntimeMode.observer) watched_run.0
      refl (go (applied clock "reef" stop_now watched_run.1 watches) stay)

abbrev wanted : GroupRuntime ℕ
wanted = record {
  state = GroupState.running;
  enabled = some true;
  pattern = some PatternKind.gyre;
  power = some 70;
  min_power = some 40;
  max_power = some 60;
  period_seconds = some 1000;
  started_at = 0;
}

abbrev wanted_limits : PowerLimits
wanted_limits = record { min_power = 40; max_power = 60 }

has_limits : effective_limits hundredths reef wanted ≡ ok wanted_limits
unfolding effective_limits power_limits
has_limits = refl

supports_gyre : is_supported PatternKind.gyre ≡ true
unfolding is_supported
supports_gyre = refl

has_cycles : HasCycles hundredths 2300 reef wanted
unfolding effective_period
has_cycles = (refl, refl)

calculate-IsBounded_example :
    IsBounded
      (is_group_enabled hundredths reef wanted)
      wanted_limits
      reef.members
      (calculate hundredths 2300 reef wanted)
calculate-IsBounded_example =
    calculate-IsBounded hundredths hundredths_laws 2300 reef wanted wanted_limits supports_gyre
      has_limits has_cycles

-- The same command while the group runs.
unfoldable pump_set : Service ℕ × DeviceCommandResult
unfolding started apply_device remove remember remember_device is_grouped
pump_set =
    value_of (nothing, no_device_result)
      (apply_device hundredths calculator controlled clock "pump" pump_on before_stop)

pump_sets :
    apply_device hundredths calculator controlled clock "pump" pump_on before_stop
    ≡ ok (pump_set.0, pump_set.1)
unfolding pump_set
pump_sets = refl

fresh_set : lookup "request-3" before_stop.device_results ≡ none
unfolding started
fresh_set = refl

set_accepted : pump_set.1.accepted ≡ true
unfolding pump_set
set_accepted = refl

apply_device-IsOverridden_example :
    (before : DeviceStatePayload) × (lookup "pump" before_stop.device_states ≡ some before)
    × (false ≡ false)
    × IsOverridden hundredths calculator controlled clock "pump" pump_on before pump_set.0
        pump_set.1
apply_device-IsOverridden_example =
    apply_device-IsOverridden hundredths calculator controlled clock "pump" pump_on before_stop
      pump_set.0 pump_set.1 pump_sets fresh_set set_accepted refl

Reaches-IsKeyed_example : IsKeyed stopped_run.0.states
Reaches-IsKeyed_example =
    Reaches-IsKeyed hundredths calculator controlled clock before_stop stopped_run.0 starts
      (go (applied clock "reef" stop_now stopped_run.1 stops) stay)
