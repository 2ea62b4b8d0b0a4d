-- ===== src/Runs/Tank.antt =====
-- A configuration with a group of one pump, and the service that it starts.
use jebao_flow_engine.Base.{ℕ, ◌≡◌, refl, true, false, [], ◌∷◌, none, some}
use jebao_flow_engine.Base.Dict.{lookup, insert}
use jebao_flow_engine.Base.Result.{Result, ok, err}
use jebao_flow_engine.Config.{AppConfig, DeviceConfig, RuntimeMode, DeviceType}
use jebao_flow_engine.Groups.{
  check_runtime, GroupConfig, PatternKind, GroupMemberRole, OfflinePolicy,
}
use jebao_flow_engine.Mqtt.Models.{
  check_member, check_members, check_group_state, check_device_state,
}
use jebao_flow_engine.Mqtt.Service.{
  Service, device_config, find_device, calculate_members, refresh_group_members,
}
use jebao_flow_engine.Mqtt.Service.Startup.{start}
use jebao_flow_engine.Patterns.{
  is_group_enabled, effective_limits, effective_power, constant_pattern, for_members, member_target,
}
use jebao_flow_engine.Patterns.Calculator.{calculate, is_supported}
use jebao_flow_engine.Protocol.Models.{device_target}
use jebao_flow_engine.Patterns.Interface.{Calculator, pattern_calculator}
use jebao_flow_engine.Runs.Numbers.{hundredths}
use jebao_flow_engine.Safety.{PowerLimits, power_limits, clamp_enabled_power}

abbrev pub limits : PowerLimits
limits = record { min_power = 30; max_power = 80 }

abbrev pub pump : DeviceConfig
pump = record {
  id = "pump";
  name = "Pump";
  type = DeviceType.wavemaker;
  model = "unknown";
  product_key = none;
  address = none;
  discovery = some "auto";
  identity = none;
  enabled = true;
  limits = limits;
  control = record {
    minimum_command_interval_ms = 1000;
    restore_on_reconnect = true;
    allow_hardware_writes = true;
    readback_delay_ms = 500;
    readback_attempts = 3;
  };
}

abbrev pub reef : GroupConfig ℕ
reef = record {
  id = "reef";
  name = "Reef";
  enabled = true;
  members =
      record {
        device = "pump";
        role = GroupMemberRole.left;
        gain = 100;
        phase = 0;
        invert = false;
        enabled = true;
      }
      ∷ [];
  default = record {
    min_power = 30;
    max_power = 80;
    pattern = PatternKind.constant;
    power = 50;
    period_seconds = 1000;
    transition_seconds = 0;
  };
  failure_policy = record {
    on_member_offline = OfflinePolicy.continue_limited;
    remaining_member_max_power = 50;
  };
}

abbrev pub config_in : RuntimeMode → AppConfig ℕ
config_in mode = record {
  instance_config = record { id = "tank"; name = "Tank"; timezone = "UTC" };
  runtime = record {
    state_path = "/data/state.json";
    log_level = "INFO";
    mode = mode;
    dry_run = false;
  };
  observer_config = record {
    enabled = true;
    journal_path = "/data/observations.jsonl";
    targets = "255.255.255.255" ∷ [];
    bind_address = "0.0.0.0";
    discovery_timeout_seconds = 300;
    rediscovery_interval_seconds = 3000;
    poll_interval_seconds = 500;
    publish_heartbeat_seconds = 30000;
    reconnect_initial_seconds = 200;
    reconnect_max_seconds = 6000;
  };
  devices = pump ∷ [];
  groups = reef ∷ [];
}

abbrev pub calculator : Calculator hundredths
calculator = pattern_calculator hundredths

abbrev pub clock : ℕ → ℕ
clock i = 100

abbrev pub controlled : AppConfig ℕ
controlled = config_in RuntimeMode.control

-- What a successful run returned.
abbrev pub value_of {ℓ} : {A : Type ℓ} → A → Result A → A
value_of fallback (ok a) = a
value_of fallback (err e) = fallback

abbrev pub nothing : Service ℕ
nothing = record {
  states = [];
  results = [];
  device_states = [];
  device_results = [];
  dirty_devices = [];
  dirty_groups = [];
  last_published_seen_at = [];
  is_update_event_set = false;
}

unfoldable pub started : RuntimeMode → Service ℕ
unfolding start device_config find_device check_group_state check_members check_member
    check_device_state calculate_members refresh_group_members lookup insert check_runtime calculate
    is_supported constant_pattern effective_limits power_limits for_members member_target
    clamp_enabled_power is_group_enabled device_target effective_power
started mode = value_of nothing (start hundredths calculator (config_in mode) clock)

pub starts : start hundredths calculator controlled clock ≡ ok (started RuntimeMode.control)
unfolding started
starts = refl
