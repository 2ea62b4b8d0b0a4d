-- ===== src/Protocol/Profiles.antt =====
-- protocol/profiles.py: the schemas of the known products.
pub mod Valid
use jebao_flow_engine.Base.{
  ℕ, ◌+◌, Bool, true, false, Option, none, some, List, [], ◌∷◌, ◌++◌, String,
}
use jebao_flow_engine.Base.Dict.{Dict, lookup, insert}
use jebao_flow_engine.Base.Result.{Result, ok, err, key_error}
use jebao_flow_engine.Protocol.Schema.{
  Datapoint, DatapointKind, DataType, Position, PositionUnit, ProductSchema, writable, fault, alert,
}

-- `_bool` with its keyword arguments, and with their defaults
unfoldable pub bool_at : ℕ → String → ℕ → ℕ → DatapointKind → Datapoint
bool_at id name bit_offset byte_offset kind = record {
  id = id;
  name = name;
  data_type = DataType.bool;
  kind = kind;
  position = record {
    byte_offset = byte_offset;
    bit_offset = bit_offset;
    width = 1;
    unit = PositionUnit.bit;
  };
  enum_values = [];
  numeric = none;
}

unfoldable pub bool_point : ℕ → String → ℕ → Datapoint
unfolding bool_at
bool_point id name bit_offset = bool_at id name bit_offset 0 writable

-- `_enum`
unfoldable pub enum_point : ℕ → String → ℕ → ℕ → List String → Datapoint
enum_point id name bit_offset width names = record {
  id = id;
  name = name;
  data_type = DataType.enum;
  kind = writable;
  position = record {
    byte_offset = 0;
    bit_offset = bit_offset;
    width = width;
    unit = PositionUnit.bit;
  };
  enum_values = names;
  numeric = none;
}

-- `_uint8`
unfoldable pub uint8_point : ℕ → String → ℕ → ℕ → ℕ → List String → Datapoint
uint8_point id name byte_offset minimum maximum names = record {
  id = id;
  name = name;
  data_type = DataType.uint8;
  kind = writable;
  position = record {
    byte_offset = byte_offset;
    bit_offset = 0;
    width = 1;
    unit = PositionUnit.byte;
  };
  enum_values = names;
  numeric = some (record { minimum = minimum; maximum = maximum; addition = 0; ratio = 1 });
}

unfoldable pub fault_points : ℕ → ℕ → List String → ℕ → List Datapoint
unfolding bool_at
fault_points start_id byte_offset [] bit = []
fault_points start_id byte_offset (name ∷ names) bit =
    bool_at (start_id + bit) name bit byte_offset fault
    ∷ fault_points start_id byte_offset names (bit + 1)

-- `_faults`
unfoldable pub faults : ℕ → ℕ → List Datapoint
unfolding fault_points
faults start_id byte_offset =
    fault_points start_id byte_offset
      ("Fault_Overcurrent" ∷ "Fault_Overvoltage" ∷ "Fault_OverTemp" ∷ "Fault_Undervoltage"
        ∷ "Fault_Lockedrotor" ∷ "Fault_no_liveload" ∷ "Fault_UART" ∷ [])
      0

unfoldable pub dc_pump_pro : ProductSchema
unfolding bool_point bool_at enum_point uint8_point faults
dc_pump_pro = record {
  name = "DC Pump Pro (WiFi+BLE)";
  product_key = "0696a19599bc484f8e1866f5ccf4ee7e";
  raw_status_size = 402;
  attribute_flags_size = 8;
  attribute_values_size = 401;
  bit_group_width = 1;
  attributes =
      bool_point 0 "SwitchON" 0
      ∷ bool_point 1 "TimerON" 1
      ∷ uint8_point 2 "Mode" 1 0 255 ("constant" ∷ "pulse" ∷ "sine" ∷ "random" ∷ "feed" ∷ [])
      ∷ uint8_point 3 "Flow" 2 0 100 []
      ∷ uint8_point 4 "Frequency" 3 0 100 []
      ∷ uint8_point 5 "FeedTime" 4 1 60 []
      ∷ uint8_point 6 "AutoMode" 5 0 255 ("constant" ∷ "pulse" ∷ "sine" ∷ "random" ∷ "feed" ∷ [])
      ∷ uint8_point 7 "AutoFlow" 6 0 100 []
      ∷ uint8_point 8 "AutoFreq" 7 0 100 []
      ∷ uint8_point 9 "AutoFeedTime" 8 1 60 []
      ∷ faults 60 401;
  enabled_attribute = some "SwitchON";
  power_attribute = some "Flow";
  mode_attribute = some "Mode";
  frequency_attribute = some "Frequency";
  control_supported = true;
}

unfoldable pub dosing_pump : ProductSchema
unfolding bool_point bool_at enum_point uint8_point faults
dosing_pump = record {
  name = "Dosing Pump (no AP time-sync)";
  product_key = "5b3c136fd4b74f3fb2a366a254c76c9a";
  raw_status_size = 394;
  attribute_flags_size = 3;
  attribute_values_size = 391;
  bit_group_width = 2;
  attributes =
      bool_point 0 "switch" 0
      ∷ bool_point 1 "channe1" 1
      ∷ bool_point 2 "channe2" 2
      ∷ bool_point 3 "channe3" 3
      ∷ bool_point 4 "channe4" 4
      ∷ bool_point 5 "Timer1ON" 5
      ∷ bool_point 6 "Timer2ON" 6
      ∷ bool_point 7 "Timer3ON" 7
      ∷ bool_point 8 "Timer4ON" 8
      ∷ bool_point 9 "CALSW" 9
      ∷ enum_point 10 "CALSet" 10 2
          ("calibrate_1" ∷ "calibrate_2" ∷ "calibrate_3" ∷ "calibrate_4" ∷ [])
      ∷ uint8_point 11 "IntervalT1" 2 0 30 []
      ∷ uint8_point 12 "IntervalT2" 3 0 30 []
      ∷ uint8_point 13 "IntervalT3" 4 0 30 []
      ∷ uint8_point 14 "IntervalT4" 5 0 30 []
      ∷ uint8_point 15 "Calib1" 6 10 100 []
      ∷ bool_at 21 "OpenCircuit" 0 392 alert
      ∷ bool_at 22 "Fault_UART" 0 393 fault
      ∷ [];
  enabled_attribute = some "switch";
  power_attribute = none;
  mode_attribute = none;
  frequency_attribute = none;
  control_supported = false;
}

unfoldable pub local_wavemaker : ProductSchema
unfolding bool_point bool_at enum_point uint8_point faults
local_wavemaker = record {
  name = "Local Wavemaker (with AP time-sync)";
  product_key = "1d8c63eaccac4205b92c84d77d5a08fb";
  raw_status_size = 401;
  attribute_flags_size = 8;
  attribute_values_size = 400;
  bit_group_width = 2;
  attributes =
      bool_point 0 "SwitchON" 0
      ∷ bool_point 1 "PulseTide" 1
      ∷ bool_point 2 "FeedSwitch" 2
      ∷ bool_point 3 "TimerON" 3
      ∷ bool_point 4 "AutoPulseTide" 4
      ∷ enum_point 5 "Mode" 5 2 ("classic" ∷ "sine" ∷ "random" ∷ "constant" ∷ [])
      ∷ enum_point 6 "Linkage" 7 2 ("independent" ∷ "master" ∷ "slave" ∷ [])
      ∷ enum_point 7 "AutoMode" 9 3
          ("stopped" ∷ "classic" ∷ "sine" ∷ "random" ∷ "constant" ∷ "feed" ∷ [])
      ∷ uint8_point 8 "Flow" 2 0 100 []
      ∷ uint8_point 9 "Frequency" 3 0 100 []
      ∷ uint8_point 10 "FeedTime" 4 1 60 []
      ∷ uint8_point 11 "AutoFlow" 5 0 100 []
      ∷ uint8_point 12 "AutoFreq" 6 0 100 []
      ∷ uint8_point 13 "AutoFeedTime" 7 1 60 []
      ∷ faults 64 400;
  enabled_attribute = some "SwitchON";
  power_attribute = some "Flow";
  mode_attribute = some "Mode";
  frequency_attribute = some "Frequency";
  control_supported = true;
}

unfoldable pub aquarium_pump : ProductSchema
unfolding bool_point bool_at enum_point uint8_point faults
aquarium_pump = record {
  name = "Aquarium Pump (WiFi+BLE)";
  product_key = "6a5c47b3ea364ecb841b47f5997a1775";
  raw_status_size = 302;
  attribute_flags_size = 8;
  attribute_values_size = 301;
  bit_group_width = 1;
  attributes =
      bool_point 0 "SwitchON" 0
      ∷ bool_point 1 "Mode" 1
      ∷ bool_point 2 "FeedSwitch" 2
      ∷ bool_point 3 "TimerON" 3
      ∷ enum_point 4 "AutoMode" 4 2 ("stopped" ∷ "auto" ∷ "feed" ∷ [])
      ∷ uint8_point 5 "Motor_Speed" 1 0 100 []
      ∷ uint8_point 6 "FeedTime" 2 1 60 []
      ∷ uint8_point 7 "AutoGears" 3 0 100 []
      ∷ uint8_point 8 "AutoFeedTime" 4 1 60 []
      ∷ faults 59 301;
  enabled_attribute = some "SwitchON";
  power_attribute = some "Motor_Speed";
  mode_attribute = none;
  frequency_attribute = none;
  control_supported = true;
}

unfoldable pub local_wavemaker_pro : ProductSchema
unfolding bool_point bool_at enum_point uint8_point faults
local_wavemaker_pro = record {
  name = "Local Wavemaker Pro (WiFi+BLE)";
  product_key = "50dbc92221fd4d33ae69a1fedd43b555";
  raw_status_size = 452;
  attribute_flags_size = 8;
  attribute_values_size = 451;
  bit_group_width = 1;
  attributes =
      bool_point 0 "SwitchON" 0
      ∷ bool_point 1 "TimerON" 1
      ∷ enum_point 2 "Linkage" 2 2 ("independent" ∷ "master" ∷ "sync_slave" ∷ "async_slave" ∷ [])
      ∷ uint8_point 3 "Mode" 1 0 255 (
          "pulse" ∷ "sine" ∷ "constant" ∷ "random" ∷ "tidal" ∷ "nutrient_transport" ∷ "circulation"
          ∷ "feed" ∷ "custom" ∷ [])
      ∷ uint8_point 4 "Flow" 2 0 100 []
      ∷ uint8_point 5 "Frequency" 3 0 100 []
      ∷ uint8_point 6 "Cust_Wav_Freq" 4 0 100 []
      ∷ uint8_point 7 "FeedTime" 5 1 60 []
      ∷ uint8_point 8 "AutoMode" 6 0 255 (
          "pulse" ∷ "sine" ∷ "constant" ∷ "random" ∷ "tidal" ∷ "nutrient_transport" ∷ "circulation"
          ∷ "feed" ∷ "custom" ∷ [])
      ∷ uint8_point 9 "AutoFlow" 7 0 100 []
      ∷ uint8_point 10 "AutoFreq" 8 0 100 []
      ∷ uint8_point 11 "Auto_Cust_Wav_Freq" 9 0 100 []
      ∷ uint8_point 12 "AutoFeedTime" 10 1 60 []
      ∷ faults 63 451;
  enabled_attribute = some "SwitchON";
  power_attribute = some "Flow";
  mode_attribute = some "Mode";
  frequency_attribute = some "Frequency";
  control_supported = true;
}

unfoldable pub index_schemas : List ProductSchema → Dict ProductSchema → Dict ProductSchema
index_schemas [] d = d
index_schemas (s ∷ schemas) d = index_schemas schemas (insert s.product_key s d)

unfoldable pub known_schemas : Dict ProductSchema
unfolding index_schemas
known_schemas =
    index_schemas
      (dc_pump_pro ∷ dosing_pump ∷ local_wavemaker ∷ aquarium_pump ∷ local_wavemaker_pro ∷ []) []

unfoldable pub get_product_schema : String → Result ProductSchema
unfolding known_schemas
get_product_schema product_key = elim (lookup product_key known_schemas) [
  | none ↦ err key_error
  | some s ↦ ok s
]
