-- ===== src/Devices/Simulator.antt =====
-- devices/simulator.py: a virtual device. A method takes the reading of the clock; the latency is
-- left out, as nothing else runs while a method holds the lock.
pub mod Replay
use jebao_flow_engine.Base.{
  ℕ, ◌%◌, ◌≤◌, ◌≡◌, refl, sym, ap, subst, Bool, true, false, not, ◌&&◌, Option, none, some, List,
  [], ◌∷◌, ◌++◌, String, str_eq, any, leb, ◌==◌, Bool-cases, inl, inr, ◌⊎◌, arith,
}
use jebao_flow_engine.Base.Action.{Action, ◌>>=◌, ◌>>◌, check, gets, modify, lift}
use jebao_flow_engine.Base.Result.{
  ok, err, device_connection_error, unsupported_capability_error, value_error,
}
use jebao_flow_engine.Protocol.Models.{
  Capability, DeviceCapabilities, DeviceState, power, enabled, mode, frequency, error,
}
use jebao_flow_engine.Safety.{PowerLimits}

-- The value of a command.
pub data Setting : Type 0 where
  to_enabled : Bool → Setting
  to_power : ℕ → Setting
  to_mode : String → Setting
  to_frequency : ℕ → Setting

pub record SimulatedCommand : Type 0 where
  pub setting : Setting
  pub issued_at : ℕ

pub record Simulator : Type 0 where
  pub device_id : String
  pub capabilities : DeviceCapabilities
  pub connected : Bool
  pub state : DeviceState
  pub commands : List SimulatedCommand

unfoldable pub simulator : String → DeviceCapabilities → ℕ → Simulator
simulator device_id capabilities now = record {
  device_id = device_id;
  capabilities = capabilities;
  connected = false;
  state = record {
    online = false;
    enabled = false;
    power = capabilities.power_limits.min_power;
    mode = "constant";
    frequency = none;
    error = none;
    schedule = none;
    observed_attributes = [];
    observed_at = now;
  };
  commands = [];
}

unfoldable pub connect : ℕ → Action Simulator (Unit {0})
connect now d = (
  ok tt,
  record d { connected = true; state = record d.state { online = true; observed_at = now } },
)

unfoldable pub disconnect : ℕ → Action Simulator (Unit {0})
disconnect now d = (
  ok tt,
  record d { connected = false; state = record d.state { online = false; observed_at = now } },
)

unfoldable pub simulate_connection_loss : Option String → ℕ → Action Simulator (Unit {0})
simulate_connection_loss reason now d = (
  ok tt,
  record d {
    connected = false;
    state = record d.state { online = false; error = reason; observed_at = now };
  },
)

unfoldable pub require_connection : Action Simulator (Unit {0})
require_connection d = check d.connected device_connection_error d

unfoldable pub get_state : ℕ → Action Simulator DeviceState
unfolding require_connection
get_state now = do
  require_connection
  state ← gets (λ (d : Simulator). d.state)
  lift (ok (record state { observed_at = now }))

abbrev pub capability_eq : Capability → Capability → Bool
capability_eq power power = true
capability_eq enabled enabled = true
capability_eq mode mode = true
capability_eq frequency frequency = true
capability_eq error error = true
capability_eq _ _ = false

abbrev pub capability_of : Setting → Capability
capability_of (to_enabled b) = enabled
capability_of (to_power n) = power
capability_of (to_mode s) = mode
capability_of (to_frequency n) = frequency

-- `model_copy(update={field: value, …})`
unfoldable pub change : Setting → ℕ → DeviceState → DeviceState
change (to_enabled b) now s = record s { enabled = b; observed_at = now }
change (to_power n) now s = record s { power = n; observed_at = now }
change (to_mode name) now s = record s { mode = name; observed_at = now }
change (to_frequency n) now s = record s { frequency = some n; observed_at = now }

unfoldable pub write : Setting → ℕ → Action Simulator (Unit {0})
unfolding require_connection change
write setting now = do
  require_connection
  capabilities ← gets (λ (d : Simulator). d.capabilities)
  check (any (capability_eq (capability_of setting)) capabilities.writable)
      unsupported_capability_error
  modify (λ d. record d {
    state = change setting now d.state;
    commands = d.commands ++ (record { setting = setting; issued_at = now } ∷ []);
  })

unfoldable pub set_enabled : Bool → ℕ → Action Simulator (Unit {0})
unfolding write
set_enabled b now = write (to_enabled b) now

unfoldable pub set_power : ℕ → ℕ → Action Simulator (Unit {0})
unfolding write
set_power amount now = do
  capabilities ← gets (λ (d : Simulator). d.capabilities)
  check
      (leb capabilities.power_limits.min_power amount
        && leb amount capabilities.power_limits.max_power)
      value_error
  check (amount % capabilities.power_step == 0) value_error
  write (to_power amount) now

unfoldable pub set_mode : String → ℕ → Action Simulator (Unit {0})
unfolding write
set_mode name now = do check (not (str_eq name "")) value_error; write (to_mode name) now

unfoldable pub set_frequency : ℕ → ℕ → Action Simulator (Unit {0})
unfolding write
set_frequency amount now = do check (leb amount 100) value_error; write (to_frequency amount) now
