-- ===== src/Config.antt =====
-- config.py: the configuration records and the checks across them. `Float` is the type of Python's
-- floats; the paths and the time zone are texts.
use jebao_flow_engine.Base.{
  ℕ, Bool, true, false, not, ◌||◌, Option, none, some, List, [], ◌∷◌, String, str_eq, all, any,
  is_some,
}
use jebao_flow_engine.Base.Result.{Result, ◌>>◌, ensure, value_error}
use jebao_flow_engine.Groups.{GroupConfig, PatternKind, repeats}
use jebao_flow_engine.Safety.{PowerLimits}

pub data DeviceType : Type 0 where
  wavemaker return_pump dosing_pump : DeviceType

pub data RuntimeMode : Type 0 where
  observer control : RuntimeMode

abbrev pub is_observer : RuntimeMode → Bool
is_observer observer = true
is_observer control = false

pub record InstanceConfig : Type 0 where
  pub id : String
  pub name : String
  pub timezone : String

pub record RuntimeConfig : Type 0 where
  pub state_path : String
  pub log_level : String
  pub mode : RuntimeMode
  pub dry_run : Bool

pub record ObserverConfig (Float : Type 0) : Type 0 where
  pub enabled : Bool
  pub journal_path : String
  pub targets : List String
  pub bind_address : String
  pub discovery_timeout_seconds : Float
  pub rediscovery_interval_seconds : Float
  pub poll_interval_seconds : Float
  pub publish_heartbeat_seconds : Float
  pub reconnect_initial_seconds : Float
  pub reconnect_max_seconds : Float

pub record DeviceIdentityConfig : Type 0 where
  pub device_id : Option String
  pub mac_address : Option String

unfoldable pub validate_selector : DeviceIdentityConfig → Result (Unit {0})
validate_selector i = ensure (is_some i.device_id || is_some i.mac_address) value_error

pub record DeviceControlConfig : Type 0 where
  pub minimum_command_interval_ms : ℕ
  pub restore_on_reconnect : Bool
  pub allow_hardware_writes : Bool
  pub readback_delay_ms : ℕ
  pub readback_attempts : ℕ

pub record DeviceConfig : Type 0 where
  pub id : String
  pub name : String
  pub type : DeviceType
  pub model : String
  pub product_key : Option String
  pub address : Option String
  pub discovery : Option String
  pub identity : Option DeviceIdentityConfig
  pub enabled : Bool
  pub limits : PowerLimits
  pub control : DeviceControlConfig

unfoldable pub validate_location : DeviceConfig → Result (Unit {0})
validate_location d = ensure (is_some d.address || is_some d.discovery) value_error

-- The parts of the configuration that the modelled components read.
pub record AppConfig (Float : Type 0) : Type 0 where
  pub instance_config : InstanceConfig
  pub runtime : RuntimeConfig
  pub observer_config : ObserverConfig Float
  pub devices : List DeviceConfig
  pub groups : List (GroupConfig Float)

abbrev pub vendor_id : DeviceConfig → Option String
vendor_id d = elim d.identity [ none ↦ none | some i ↦ i.device_id ]

abbrev pub mac_address_of : DeviceConfig → Option String
mac_address_of d = elim d.identity [ none ↦ none | some i ↦ i.mac_address ]

-- `[f(x) for x in xs if f(x) is not None]`
abbrev pub present {ℓ κ} : {A : Type ℓ} {B : Type κ} → (A → Option B) → List A → List B
present f [] = []
present f (x ∷ xs) = elim (f x) [ none ↦ present f xs | some b ↦ b ∷ present f xs ]

unfoldable pub device_ids : List DeviceConfig → List String
device_ids [] = []
device_ids (d ∷ devices) = d.id ∷ device_ids devices

module _ {Float : Type 0} where
  unfoldable pub group_ids : List (GroupConfig Float) → List String
  group_ids [] = []
  group_ids (g ∷ groups) = g.id ∷ group_ids groups

  -- `not ({member.device for member in group.members} - known_devices)`
  unfoldable pub is_known : List String → GroupConfig Float → Bool
  is_known known group = all (λ m. any (str_eq m.device) known) group.members

  -- `is_supported` is membership in `PatternCalculator.supported_patterns()`.
  unfoldable pub validate_references : (PatternKind → Bool) → AppConfig Float → Result (Unit {0})
  unfolding device_ids group_ids is_known
  validate_references is_supported config = do
    ensure (not (repeats (device_ids config.devices))) value_error
    ensure (not (repeats (group_ids config.groups))) value_error
    ensure (all (is_known (device_ids config.devices)) config.groups) value_error
    ensure (not (repeats (present vendor_id config.devices))) value_error
    ensure (not (repeats (present mac_address_of config.devices))) value_error
    ensure
        (is_observer config.runtime.mode || all (λ g. is_supported g.default.pattern) config.groups)
        value_error
