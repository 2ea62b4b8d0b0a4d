-- ===== src/Runs/Lan.antt =====
-- A device adapter over a concrete world: a device that stores the switch that it is sent.
use jebao_flow_engine.Base.{
  ℕ, ◌+◌, ◌<◌, ◌≡◌, refl, true, false, Option, none, some, [], ◌∷◌, String, arith, drop, inl, inr,
}
use jebao_flow_engine.Base.Bytes.{Bytes}
use jebao_flow_engine.Base.Dict.{Dict, lookup, insert}
use jebao_flow_engine.Base.Int.{ℤ}
use jebao_flow_engine.Base.Result.{Error, ok, err, value_error}
use jebao_flow_engine.Config.{DeviceConfig, RuntimeConfig, observer, wavemaker}
use jebao_flow_engine.Devices.Factory.{
  create_lan_device, create_lan_device-reads, create_read_only_lan_device,
  create_read_only_lan_device-reads,
}
use jebao_flow_engine.Devices.Gizwits.{gizwits_session, gizwits_session-IsKept}
use jebao_flow_engine.Devices.Lan.{LanDevice, apply_changes, connect}
use jebao_flow_engine.Devices.Lan.Applied.{IsOutcome, apply_changes-IsOutcome}
use jebao_flow_engine.Devices.Lan.Commands.{get_state, set_enabled, set_power, write_target}
use jebao_flow_engine.Devices.Lan.Limits.{IsOutside-refused}
use jebao_flow_engine.Devices.Lan.Locked
use jebao_flow_engine.Devices.Lan.States.{Numerals}
use jebao_flow_engine.Devices.RawSession.{Loop, LoopLaws, RawSession}
use jebao_flow_engine.Protocol.Control.{build_control_payload}
use jebao_flow_engine.Protocol.Models.{DeviceTarget}
use jebao_flow_engine.Protocol.Profiles.{
  aquarium_pump, bool_point, dc_pump_pro, dosing_pump, get_product_schema, local_wavemaker,
  local_wavemaker_pro,
}
use jebao_flow_engine.Protocol.Schema.{
  ProductSchema, by_name, decode_attribute, decode_status, read_bits,
}
use jebao_flow_engine.Protocol.Session.{Session}
use jebao_flow_engine.Protocol.Value.{Value, of_bool, value_eq}

record World : Type 0 where
  clock : ℕ
  status : Bytes

abbrev world_session : RawSession World
world_session = record {
  connected = λ w. true;
  connect = λ w. (ok tt, w);
  disconnect = λ w. (ok tt, w);
  authenticate = λ w. (ok [], w);
  read_raw_state = λ w. (ok w.status, record w { clock = w.clock + 1 });
  send_raw_control =
      λ payload w. (ok [], record w { status = drop 2 payload; clock = w.clock + 1 });
}

abbrev world_loop : Loop World
world_loop = record { time = λ w. w.clock; sleep = λ delay w. record w { clock = w.clock + delay } }

world_laws : LoopLaws world_session world_loop
world_laws = record {
  sleeps = λ delay w. omega arith;
  reads = λ w. omega arith;
  sends = λ payload w. omega arith;
}

unfoldable switch_schema : ProductSchema
unfolding bool_point
switch_schema = record {
  name = "switch";
  product_key = "key";
  raw_status_size = 1;
  attribute_flags_size = 1;
  attribute_values_size = 1;
  bit_group_width = 1;
  attributes = bool_point 0 "SwitchON" 0 ∷ [];
  enabled_attribute = some "SwitchON";
  power_attribute = none;
  mode_attribute = none;
  frequency_attribute = none;
  control_supported = true;
}

unfoldable adapter : LanDevice World
unfolding switch_schema
adapter = record {
  device_id = "left";
  address = "192.168.1.7";
  schema = switch_schema;
  power_limits = record { min_power = 30; max_power = 100 };
  power_step = 1;
  minimum_command_interval = 1_000_000;
  readback_delay = 0;
  readback_attempts = 3;
  allow_hardware_writes = true;
  session = record { clock = 5; status = 0 ∷ [] };
  last_command_at = some 1;
  last_sent_values = [];
}

abbrev no_numbers : String → Option ℤ
no_numbers text = none

abbrev switch_on : Dict Value
switch_on = ("SwitchON", of_bool true) ∷ []

unfoldable applied : LanDevice World
unfolding apply_changes adapter
applied = (apply_changes no_numbers world_session world_loop switch_on adapter).1

applies : apply_changes no_numbers world_session world_loop switch_on adapter ≡ (ok tt, applied)
unfolding applied apply_changes adapter build_control_payload decode_status lookup insert value_eq
    by_name decode_attribute read_bits
applies = refl

some_attempts : 0 < adapter.readback_attempts
unfolding adapter
some_attempts = omega arith

apply_changes-IsOutcome_example :
    IsOutcome no_numbers world_session world_loop world_laws switch_on adapter
      (apply_changes no_numbers world_session world_loop switch_on adapter)
apply_changes-IsOutcome_example =
    apply_changes-IsOutcome no_numbers world_session world_loop world_laws adapter switch_on
      some_attempts

-- A target below the limits.
abbrev weak : DeviceTarget
weak = record { enabled = true; power = 10; mode = none; frequency = none }

IsOutside-refused_example :
    (set_power no_numbers world_session world_loop 10 adapter ≡ (err value_error, adapter))
    × ((raised : Error) × (write_target no_numbers world_session world_loop weak adapter
          ≡ (err raised, adapter)))
unfolding adapter
IsOutside-refused_example =
    IsOutside-refused no_numbers world_session world_loop adapter 10 weak (inl (omega arith)) refl
      refl

abbrev left_pump : DeviceConfig
left_pump = record {
  id = "left";
  name = "Left";
  type = wavemaker;
  model = "unknown";
  product_key = some "50dbc92221fd4d33ae69a1fedd43b555";
  address = some "192.168.1.7";
  discovery = none;
  identity = none;
  enabled = true;
  limits = record { min_power = 30; max_power = 100 };
  control = record {
    minimum_command_interval_ms = 1000;
    restore_on_reconnect = true;
    allow_hardware_writes = true;
    readback_delay_ms = 500;
    readback_attempts = 3;
  };
}

abbrev dry_runtime : RuntimeConfig
dry_runtime = record { state_path = "/state"; log_level = "INFO"; mode = observer; dry_run = true }

abbrev new_session : String → Session
new_session address = record {
  max_skipped_frames = 8;
  incoming = none;
  is_closing = false;
  sequence = 0;
  is_authenticated = false;
  sent = [];
  openings = [];
}

abbrev session_loop : Loop Session
session_loop = record { time = λ s. 0; sleep = λ delay s. s }

abbrev numerals : Numerals
numerals = record {
  round_text = λ text. err value_error;
  round_bytes = λ bytes. err value_error;
  show = λ value. "value";
}

unfoldable read_only : LanDevice Session
unfolding local_wavemaker_pro
read_only = record {
  device_id = "left";
  address = "192.168.1.7";
  schema = local_wavemaker_pro;
  power_limits = record { min_power = 30; max_power = 100 };
  power_step = 1;
  minimum_command_interval = 1_000_000;
  readback_delay = 500_000;
  readback_attempts = 3;
  allow_hardware_writes = false;
  session = new_session "192.168.1.7";
  last_command_at = none;
  last_sent_values = [];
}

creates_read_only :
    create_read_only_lan_device new_session left_pump "192.168.1.7"
      "50dbc92221fd4d33ae69a1fedd43b555"
    ≡ ok read_only
unfolding create_read_only_lan_device read_only get_product_schema dosing_pump dc_pump_pro
    local_wavemaker aquarium_pump local_wavemaker_pro lookup insert
creates_read_only = refl

creates_dry : create_lan_device new_session left_pump dry_runtime ≡ ok read_only
unfolding create_lan_device read_only get_product_schema dosing_pump dc_pump_pro local_wavemaker
    aquarium_pump local_wavemaker_pro lookup insert
creates_dry = refl

-- The adapter connects and is told to switch on and to read.
abbrev asked : LanDevice Session
asked =
    (get_state numerals gizwits_session 3
      (set_enabled no_numbers gizwits_session session_loop true
        (connect gizwits_session session_loop read_only).1).1).1

asked-Reaches : Locked.Reaches numerals no_numbers gizwits_session session_loop read_only asked
asked-Reaches =
    Locked.go Locked.connects
      (Locked.go (Locked.enables true) (Locked.go (Locked.reads 3) Locked.stay))

starts : read_only.session.sequence ≡ 0
unfolding read_only
starts = refl

create_read_only_lan_device-reads_example : asked.session.sequence ≡ 0
create_read_only_lan_device-reads_example =
    create_read_only_lan_device-reads new_session numerals no_numbers gizwits_session session_loop
      (λ s. s.sequence ≡ 0) left_pump "192.168.1.7" "50dbc92221fd4d33ae69a1fedd43b555" read_only
      asked (gizwits_session-IsKept 0) creates_read_only starts asked-Reaches

create_lan_device-reads_example : asked.session.sequence ≡ 0
create_lan_device-reads_example =
    create_lan_device-reads new_session numerals no_numbers gizwits_session session_loop
      (λ s. s.sequence ≡ 0) left_pump dry_runtime read_only asked (gizwits_session-IsKept 0)
      creates_dry (inr refl) starts asked-Reaches
