-- ===== src/Devices/Lan/States.antt =====
-- The reads of devices/lan.py, and the constructor of an adapter.
use jebao_flow_engine.Base.{
  ℕ, ◌*◌, Bool, true, false, not, ◌&&◌, ◌||◌, Option, none, some, List, [], ◌∷◌, String, str_eq,
  any, leb, if◌then◌else◌,
}
use jebao_flow_engine.Base.Dict.{Dict, lookup}
use jebao_flow_engine.Base.Int.{ℤ, pos, negsuc}
use jebao_flow_engine.Base.Result.{Result, ok, err, ensure, ◌>>=◌, ◌>>◌, value_error}
use jebao_flow_engine.Base.Bytes.{Bytes}
use jebao_flow_engine.Devices.Lan.{LanDevice}
use jebao_flow_engine.Groups.{holds_of}
use jebao_flow_engine.Protocol.Models.{DeviceSchedule, DeviceState}
use jebao_flow_engine.Protocol.Profiles.{get_product_schema}
use jebao_flow_engine.Protocol.Schedule.{decode_schedule}
use jebao_flow_engine.Protocol.Schema.{ProductSchema, active_problems, decode_status, is_set}
use jebao_flow_engine.Protocol.Value.{Value, of_bool, of_int, of_text, of_bytes, truthy}
use jebao_flow_engine.Safety.{PowerLimits}
use Prim.Native.String.{◌++◌ as ◌⧺◌}
use text.Mathlib.Text.{starts_with}

-- What the adapter needs of Python's numerals: `round(float(value))` of a text or of bytes, and `str(value)`.
pub record Numerals : Type 0 where
  pub round_text : String → Result ℤ
  pub round_bytes : Bytes → Result ℤ
  pub show : Value → String

unfoldable pub natural : ℤ → Result ℕ
natural (pos n) = ok n
natural (negsuc n) = err value_error

-- `values.get(name, …)`, for a name that may be None
unfoldable pub value_of : Option String → Dict Value → Option Value
value_of none values = none
value_of (some name) values = lookup name values

-- `", ".join(names)`
unfoldable pub join : List String → String
join [] = ""
join (name ∷ []) = name
join (name ∷ names) = name ⧺ (", " ⧺ join names)

unfoldable pub problem_text : List String → Option String
unfolding join
problem_text [] = none
problem_text (name ∷ names) = some (join (name ∷ names))

unfoldable pub is_observed : String → Bool
is_observed name =
    starts_with name "Timer"
    || starts_with name "Auto"
    || starts_with name "Feed"
    || starts_with name "Interval"
    || any (str_eq name) (
        "PulseTide" ∷ "Linkage" ∷ "Cust_Wav_Freq" ∷ "channe1" ∷ "channe2" ∷ "channe3" ∷ "channe4"
        ∷ [])

unfoldable pub observed_attributes : Dict Value → Dict Value
unfolding is_observed
observed_attributes [] = []
observed_attributes ((name, value) ∷ values) =
    let rest = observed_attributes values in if is_observed name then (name, value) ∷ rest else rest

module _ (numerals : Numerals) where
  unfoldable pub round_value : Value → Result ℤ
  round_value (of_bool true) = ok (pos 1)
  round_value (of_bool false) = ok (pos 0)
  round_value (of_int n) = ok n
  round_value (of_text text) = numerals.round_text text
  round_value (of_bytes bytes) = numerals.round_bytes bytes

  unfoldable pub mode_text : Option Value → String
  mode_text none = "unknown"
  mode_text (some (of_text text)) = text
  mode_text (some value) = "raw_" ⧺ numerals.show value

  unfoldable pub power_of : Option Value → Result ℕ
  unfolding round_value natural
  power_of none = ok 0
  power_of (some value) = do rounded ← round_value value; natural rounded

  unfoldable pub frequency_of : Option Value → Result (Option ℕ)
  unfolding round_value natural
  frequency_of none = ok none
  frequency_of (some value) = do
    rounded ← round_value value
    amount ← natural rounded
    ok (some amount)

  -- The last argument is the reading of the clock; `DeviceState` checks the ranges of its fields.
  unfoldable pub to_device_state :
      ProductSchema → Dict Value → Option DeviceSchedule → ℕ → Result DeviceState
  unfolding value_of power_of frequency_of mode_text problem_text observed_attributes
  to_device_state schema values schedule now = do
    amount ← power_of (value_of schema.power_attribute values)
    beat ← frequency_of (value_of schema.frequency_attribute values)
    ensure (leb amount 100 && holds_of (λ n. leb n 100) beat) value_error
    ok (record {
      online = true;
      enabled = elim (value_of schema.enabled_attribute values) [
        | none ↦ false
        | some v ↦ truthy v
      ];
      power = amount;
      mode = mode_text (value_of schema.mode_attribute values);
      frequency = beat;
      error = problem_text (active_problems schema values);
      schedule = schedule;
      observed_attributes = observed_attributes values;
      observed_at = now;
    })

  -- What `get_state` makes of a status.
  unfoldable pub state_of : ProductSchema → Bytes → ℕ → Result DeviceState
  unfolding to_device_state
  state_of schema raw now = do
    values ← decode_status schema raw
    schedule ← decode_schedule schema.product_key raw (is_set values "TimerON")
    to_device_state schema values schedule now

-- The keyword arguments of the constructor; times are in milliseconds there.
pub record LanOptions : Type 0 where
  pub power_limits : Option PowerLimits
  pub power_step : ℕ
  pub minimum_command_interval_ms : ℕ
  pub readback_delay_ms : ℕ
  pub readback_attempts : ℕ
  pub allow_hardware_writes : Bool

-- `PowerLimits()`
abbrev pub default_limits : PowerLimits
default_limits = record { min_power = 30; max_power = 100 }

-- `LanJebaoDevice(...)`; the session factory makes a session for the address.
unfoldable pub lan_device :
    {S : Type 0} → (String → S) → String → String → String → LanOptions → Result (LanDevice S)
lan_device session_factory device_id address product_key options = do
  ensure (not (str_eq device_id "" || str_eq address "")) value_error
  ensure (leb 1 options.power_step && leb options.power_step 100) value_error
  ensure (leb 100 options.minimum_command_interval_ms) value_error
  ensure (leb 1 options.readback_attempts) value_error
  schema ← get_product_schema product_key
  ok (record {
    device_id = device_id;
    address = address;
    schema = schema;
    power_limits = elim options.power_limits [ none ↦ default_limits | some limits ↦ limits ];
    power_step = options.power_step;
    minimum_command_interval = options.minimum_command_interval_ms * 1000;
    readback_delay = options.readback_delay_ms * 1000;
    readback_attempts = options.readback_attempts;
    allow_hardware_writes = options.allow_hardware_writes;
    session = session_factory address;
    last_command_at = none;
    last_sent_values = [];
  })
