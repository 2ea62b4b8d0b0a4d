-- ===== src/Runs/Observer.antt =====
-- Bindings, reports, a registry and a simulated device at concrete values.
use jebao_flow_engine.Base.{◌+◌, ◌≡◌, refl, true, false, none, some, [], ◌∷◌, String, length, ◌⊎◌}
use jebao_flow_engine.Base.Dict.{Dict, lookup, insert}
use jebao_flow_engine.Base.Result.{ok, err, value_error}
use jebao_flow_engine.Config.{DeviceConfig, wavemaker}
use jebao_flow_engine.Devices.Observer.Bindings.{ResolvedDevice, resolve_device_bindings}
use jebao_flow_engine.Devices.Observer.Bindings.Candidates.{Among}
use jebao_flow_engine.Devices.Observer.Bindings.Claimed.{IsBinding}
use jebao_flow_engine.Devices.Observer.Bindings.Sound.{
  resolve_device_bindings-IsBinding, resolve_device_bindings-distinct,
}
use jebao_flow_engine.Devices.Observer.Journal.{IsTold, Reaches-IsTold, fails, reads}
use jebao_flow_engine.Devices.Observer.Journal
use jebao_flow_engine.Devices.Observer.Reports.{Observer, report_offline, report_state}
use jebao_flow_engine.Devices.Registry.{add, add_refines, update, view}
use jebao_flow_engine.Devices.Simulator.{Simulator, connect, set_power, simulator}
use jebao_flow_engine.Devices.Simulator.Replay
use jebao_flow_engine.Devices.Simulator.Replay.{IsReplayed, simulator-IsReplayed}
use jebao_flow_engine.Protocol.Models.{DeviceCapabilities, DeviceState, DiscoveredDevice, power}

abbrev wavemaker_key : String
wavemaker_key = "50dbc92221fd4d33ae69a1fedd43b555"

abbrev left_pump : DeviceConfig
left_pump = record {
  id = "left";
  name = "Left";
  type = wavemaker;
  model = "unknown";
  product_key = none;
  address = none;
  discovery = some "auto";
  identity = some (record { device_id = some "vendor-1"; mac_address = none });
  enabled = true;
  limits = record { min_power = 30; max_power = 100 };
  control = record {
    minimum_command_interval_ms = 1000;
    restore_on_reconnect = true;
    allow_hardware_writes = false;
    readback_delay_ms = 500;
    readback_attempts = 3;
  };
}

abbrev found : DiscoveredDevice
found = record {
  address = "192.168.1.7";
  device_id = "vendor-1";
  mac_address = none;
  product_key = some wavemaker_key;
  model = "unknown";
  wifi_firmware_version = none;
  api_server = none;
  gizwits_version = none;
  mcu_attributes_hex = "";
  extra_hex = "";
}

abbrev bound : ResolvedDevice
bound = record { logical_id = "left"; address = "192.168.1.7"; product_key = wavemaker_key }

abbrev same : String → String
same value = value

resolves : lookup "left" (resolve_device_bindings same (left_pump ∷ []) (found ∷ [])) ≡ some bound
unfolding resolve_device_bindings lookup insert
resolves = refl

resolve_device_bindings-IsBinding_example :
    (config : DeviceConfig) × Among config (left_pump ∷ [])
    × (config.id ≡ "left")
    × IsBinding same (found ∷ []) config bound
resolve_device_bindings-IsBinding_example =
    resolve_device_bindings-IsBinding same (found ∷ []) (left_pump ∷ []) "left" bound resolves

resolve_device_bindings-distinct_example : ◌≡◌ {A = String} "left" "left"
resolve_device_bindings-distinct_example =
    resolve_device_bindings-distinct same (found ∷ []) (left_pump ∷ []) "left" "left" bound bound
      resolves resolves refl refl

abbrev idle : DeviceState
idle = record {
  online = true;
  enabled = false;
  power = 30;
  mode = "constant";
  frequency = none;
  error = none;
  schedule = none;
  observed_attributes = [];
  observed_at = 5;
}

abbrev unseen : Observer
unseen = record { last_states = []; offline_ids = []; events = []; journal = [] }

unseen-IsTold : IsTold unseen
unfolding IsTold Journal.ends_offline
unseen-IsTold id = refl

-- A device that fails twice and then answers.
abbrev recovered : Observer
recovered =
    report_state "left" idle
      (report_offline "left" "lost" 2 (report_offline "left" "lost" 1 unseen))

Reaches-IsTold_example : IsTold recovered
Reaches-IsTold_example =
    Reaches-IsTold unseen recovered
      (Journal.go (fails "left" "lost" 1)
        (Journal.go (fails "left" "lost" 2) (Journal.go (reads "left" idle) Journal.stay)))
      unseen-IsTold

add_refines_example :
    ((view same [] "left" ≡ none)
      × ((added : Dict String) × (add same "left" [] ≡ ok added)
          × (view same added ≡ update same (view same []) "left" "left")
          × (length added ≡ length {A = String × String} [] + 1)))
    ⊎ ((old : String) × (view same [] "left" ≡ some old) × (add same "left" [] ≡ err value_error))
add_refines_example = add_refines same "left" []

abbrev capable : DeviceCapabilities
capable = record {
  model = "simulator";
  product_key = none;
  readable = power ∷ [];
  writable = power ∷ [];
  power_limits = record { min_power = 30; max_power = 100 };
  power_step = 1;
}

abbrev new_device : Simulator
new_device = simulator "left" capable 0

simulator-IsReplayed_example : IsReplayed (set_power 60 2 (connect 1 new_device).1).1
simulator-IsReplayed_example =
    simulator-IsReplayed "left" capable 0 (set_power 60 2 (connect 1 new_device).1).1
      (Replay.go (Replay.connects 1) (Replay.go (Replay.powers 60 2) Replay.stay))
