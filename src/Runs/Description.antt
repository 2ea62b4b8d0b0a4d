-- ===== src/Runs/Description.antt =====
-- What the service of the example's configuration tells its clients.
use jebao_flow_engine.Base.{◌≡◌, refl, true, [], ◌∷◌, All}
use jebao_flow_engine.Base.Result.{ok}
use jebao_flow_engine.Config.{DeviceType, RuntimeMode}
use jebao_flow_engine.Groups.{
  anti_phase, constant, gyre, lagoon, nutrient_transport, reef_crest, sync, tidal_swell,
}
use jebao_flow_engine.Mqtt.Models.{SystemConfigPayload, check_device_descriptor}
use jebao_flow_engine.Mqtt.Service.{device_config, find_device, is_grouped}
use jebao_flow_engine.Mqtt.Service.Described.{IsDescribed, system_config-IsDescribed}
use jebao_flow_engine.Mqtt.Service.Description.{system_config}
use jebao_flow_engine.Mqtt.Service.Overrides.{device_controls}
use jebao_flow_engine.Patterns.Calculator.{is_supported}
use jebao_flow_engine.Runs.Numbers.{hundredths}
use jebao_flow_engine.Runs.Tank.{calculator, clock, controlled, started, starts}

abbrev description : SystemConfigPayload
description = record {
  instance_id = "tank";
  name = "Tank";
  runtime_mode = RuntimeMode.control;
  groups = record { id = "reef"; name = "Reef" } ∷ [];
  devices =
      record {
        id = "pump";
        name = "Pump";
        type = DeviceType.wavemaker;
        grouped = true;
        ui = "flow_member";
        controls = "enabled" ∷ "power" ∷ "resume_group" ∷ [];
        observables = "enabled" ∷ "power" ∷ "mode" ∷ "frequency" ∷ "error" ∷ "schedule" ∷ [];
        min_power = 30;
        max_power = 80;
      }
      ∷ [];
  patterns =
      anti_phase ∷ constant ∷ gyre ∷ lagoon ∷ nutrient_transport ∷ reef_crest ∷ sync ∷ tidal_swell
      ∷ [];
  features = "feed" ∷ "emergency_stop" ∷ "hardware_write_lock" ∷ "individual_override" ∷ [];
}

describes : system_config hundredths calculator controlled clock ≡ ok description
unfolding system_config device_config find_device is_grouped device_controls is_supported
    check_device_descriptor
describes = refl

system_config-IsDescribed_example :
    All
      (IsDescribed hundredths calculator controlled clock (started RuntimeMode.control))
      description.devices
system_config-IsDescribed_example =
    system_config-IsDescribed hundredths calculator controlled clock (started RuntimeMode.control)
      description starts describes
