-- ===== src/Devices/Lan/Targets.antt =====
-- The commands of devices/lan.py: from a target to the changes that `_apply_changes` writes.
use jebao_flow_engine.Base.{
  ℕ, ◌%◌, Bool, false, not, ◌&&◌, ◌||◌, Option, none, some, List, [], ◌∷◌, ◌++◌, String, str_eq,
  leb, ◌==◌, if◌then◌else◌,
}
use jebao_flow_engine.Base.Bytes.{Bytes}
use jebao_flow_engine.Base.Dict.{Dict, insert}
use jebao_flow_engine.Base.Int.{ℤ, pos}
use jebao_flow_engine.Base.Result.{
  Result, ok, ensure, require, ◌>>=◌, ◌>>◌, value_error, unsupported_capability_error,
}
use jebao_flow_engine.Protocol.Control.{build_control_payload}
use jebao_flow_engine.Protocol.Models.{
  Capability, DeviceCapabilities, DeviceTarget, power, enabled, mode, frequency, error,
}
use jebao_flow_engine.Protocol.Schema.{Datapoint, ProductSchema, by_name, is_empty, is_enum_type}
use jebao_flow_engine.Protocol.Value.{Value, of_bool, of_int, of_text}
use jebao_flow_engine.Safety.{PowerLimits}

-- `names.get(capability)`
unfoldable pub logical_attribute : ProductSchema → Capability → Option String
logical_attribute schema enabled = schema.enabled_attribute
logical_attribute schema power = schema.power_attribute
logical_attribute schema mode = schema.mode_attribute
logical_attribute schema frequency = schema.frequency_attribute
logical_attribute schema error = none

unfoldable pub require_logical_attribute : ProductSchema → Capability → Result String
unfolding logical_attribute
require_logical_attribute schema capability =
    require unsupported_capability_error (logical_attribute schema capability)

unfoldable pub validate_power : PowerLimits → ℕ → ℕ → Result (Unit {0})
validate_power limits step amount = do
  ensure (leb limits.min_power amount && leb amount limits.max_power) value_error
  ensure (amount % step == 0) value_error

-- A mode whose numbers have names.
unfoldable pub is_mapped : Datapoint → Bool
is_mapped d = is_enum_type d.data_type || not (is_empty d.enum_values)

unfoldable pub mode_attribute_of : ProductSchema → Result String
unfolding require_logical_attribute is_mapped
mode_attribute_of schema = do
  mode_attribute ← require_logical_attribute schema mode
  mode_datapoint ← by_name schema mode_attribute
  ensure (is_mapped mode_datapoint) unsupported_capability_error
  ok mode_attribute

-- The changes with a mode, and with a frequency, if the target has one.
unfoldable pub add_mode : ProductSchema → Option String → Dict Value → Result (Dict Value)
unfolding mode_attribute_of
add_mode schema none changes = ok changes
add_mode schema (some name) changes = do
  attribute ← mode_attribute_of schema
  ok (insert attribute (of_text name) changes)

unfoldable pub add_frequency : ProductSchema → Option ℕ → Dict Value → Result (Dict Value)
unfolding require_logical_attribute
add_frequency schema none changes = ok changes
add_frequency schema (some amount) changes = do
  ensure (leb amount 100) value_error
  attribute ← require_logical_attribute schema frequency
  ok (insert attribute (of_int (pos amount)) changes)

unfoldable pub enabled_changes :
    ProductSchema → PowerLimits → ℕ → DeviceTarget → Dict Value → Result (Dict Value)
unfolding validate_power require_logical_attribute add_mode add_frequency
enabled_changes schema limits step target changes = do
  validate_power limits step target.power
  power_attribute ← require_logical_attribute schema power
  with_mode ←
      add_mode schema target.mode (insert power_attribute (of_int (pos target.power)) changes)
  add_frequency schema target.frequency with_mode

unfoldable pub target_changes : ProductSchema → PowerLimits → ℕ → DeviceTarget → Result (Dict Value)
unfolding require_logical_attribute enabled_changes
target_changes schema limits step target = do
  enabled_attribute ← require_logical_attribute schema enabled
  let changes = (enabled_attribute, of_bool target.enabled) ∷ []
  if target.enabled then enabled_changes schema limits step target changes else ok changes

pub record ControlPlan : Type 0 where
  pub product_key : String
  pub changes : Dict Value
  pub payload : Bytes

unfoldable pub preview_target :
    (String → Option ℤ) → ProductSchema → PowerLimits → ℕ → DeviceTarget → Result ControlPlan
unfolding target_changes
preview_target float_text schema limits step target = do
  changes ← target_changes schema limits step target
  payload ← build_control_payload float_text schema changes
  ok (record { product_key = schema.product_key; changes = changes; payload = payload })

-- `if self.schema.…_attribute:`
unfoldable pub is_named : Option String → Bool
is_named none = false
is_named (some name) = not (str_eq name "")

abbrev if_true : Bool → List Capability → List Capability
if_true b capabilities = if b then capabilities else []

-- Whether a mode can be written, for a schema that can be controlled.
unfoldable pub is_mode_writable : ProductSchema → Option String → Result Bool
unfolding is_mapped
is_mode_writable schema none = ok false
is_mode_writable schema (some name) =
    if str_eq name ""
    then ok false
    else (do d ← by_name schema name; ok (schema.control_supported && is_mapped d))

unfoldable pub capabilities : ProductSchema → PowerLimits → ℕ → Result DeviceCapabilities
unfolding is_named is_mode_writable
capabilities schema limits step = do
  let has_enabled = is_named schema.enabled_attribute
  let has_power = is_named schema.power_attribute
  let has_frequency = is_named schema.frequency_attribute
  let can_write = schema.control_supported
  mode_writable ← is_mode_writable schema schema.mode_attribute
  ok (record {
    model = schema.name;
    product_key = some schema.product_key;
    readable =
        (error ∷ [])
        ++ (if_true has_enabled (enabled ∷ [])
            ++ (if_true has_power (power ∷ [])
                ++ (if_true (is_named schema.mode_attribute) (mode ∷ [])
                    ++ if_true has_frequency (frequency ∷ []))));
    writable =
        if_true (has_enabled && can_write) (enabled ∷ [])
        ++ (if_true (has_power && can_write) (power ∷ [])
            ++ (if_true mode_writable (mode ∷ [])
                ++ if_true (has_frequency && can_write) (frequency ∷ [])));
    power_limits = limits;
    power_step = step;
  })

-- The changes of the four setters.
unfoldable pub enabled_change : ProductSchema → Bool → Result (Dict Value)
unfolding require_logical_attribute
enabled_change schema is_enabled = do
  attribute ← require_logical_attribute schema enabled
  ok ((attribute, of_bool is_enabled) ∷ [])

unfoldable pub power_change : ProductSchema → PowerLimits → ℕ → ℕ → Result (Dict Value)
unfolding validate_power require_logical_attribute
power_change schema limits step amount = do
  validate_power limits step amount
  attribute ← require_logical_attribute schema power
  ok ((attribute, of_int (pos amount)) ∷ [])

unfoldable pub mode_change : ProductSchema → String → Result (Dict Value)
unfolding mode_attribute_of
mode_change schema name = do
  attribute ← mode_attribute_of schema
  ok ((attribute, of_text name) ∷ [])

unfoldable pub frequency_change : ProductSchema → ℕ → Result (Dict Value)
unfolding require_logical_attribute
frequency_change schema amount = do
  ensure (leb amount 100) value_error
  attribute ← require_logical_attribute schema frequency
  ok ((attribute, of_int (pos amount)) ∷ [])
