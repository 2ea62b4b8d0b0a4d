-- ===== src/Devices/Lan/Commands.antt =====
-- The public operations of devices/lan.py, on the adapter with its session.
use jebao_flow_engine.Base.{ℕ, Bool, Option, String}
use jebao_flow_engine.Base.Action.{Action, ◌>>=◌, continue, lift, gets}
use jebao_flow_engine.Base.Dict.{Dict}
use jebao_flow_engine.Base.Int.{ℤ}
use jebao_flow_engine.Base.Result.{Result}
use jebao_flow_engine.Devices.Lan.{LanDevice, apply_changes, on_session}
use jebao_flow_engine.Devices.Lan.States.{Numerals, state_of}
use jebao_flow_engine.Devices.Lan.Targets.{
  enabled_change, power_change, mode_change, frequency_change, target_changes,
}
use jebao_flow_engine.Devices.RawSession.{RawSession, Loop}
use jebao_flow_engine.Protocol.Models.{DeviceState, DeviceTarget}
use jebao_flow_engine.Protocol.Value.{Value}

module _ {S : Type 0} (numerals : Numerals) (session : RawSession S) where
  unfoldable pub get_state : ℕ → Action (LanDevice S) DeviceState
  unfolding on_session state_of
  get_state now = do
    raw ← on_session session.read_raw_state
    schema ← gets (λ (d : LanDevice S). d.schema)
    lift (state_of numerals schema raw now)

module _ {S : Type 0} (float_text : String → Option ℤ) (session : RawSession S)
    (loop : Loop S) where
  -- A command: what it validates, and the changes that it then applies.
  unfoldable pub command : (LanDevice S → Result (Dict Value)) → Action (LanDevice S) (Unit {0})
  command plan d = continue (plan d) (apply_changes float_text session loop) d

  unfoldable pub set_enabled : Bool → Action (LanDevice S) (Unit {0})
  unfolding command enabled_change
  set_enabled is_enabled = command (λ d. enabled_change d.schema is_enabled)

  unfoldable pub set_power : ℕ → Action (LanDevice S) (Unit {0})
  unfolding command power_change
  set_power amount = command (λ d. power_change d.schema d.power_limits d.power_step amount)

  unfoldable pub set_mode : String → Action (LanDevice S) (Unit {0})
  unfolding command mode_change
  set_mode name = command (λ d. mode_change d.schema name)

  unfoldable pub set_frequency : ℕ → Action (LanDevice S) (Unit {0})
  unfolding command frequency_change
  set_frequency amount = command (λ d. frequency_change d.schema amount)

  unfoldable pub write_target : DeviceTarget → Action (LanDevice S) (Unit {0})
  unfolding command target_changes
  write_target target = command (λ d. target_changes d.schema d.power_limits d.power_step target)
