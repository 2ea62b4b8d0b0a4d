-- ===== src/Devices/Simulator/Replay.antt =====
-- The log of commands of devices/simulator.py along a run.
use jebao_flow_engine.Base.{
  ℕ, ◌%◌, ◌≤◌, ◌≡◌, refl, sym, ap, ◌∙◌, subst, Bool, true, false, not, ◌&&◌, Option, none, some,
  List, [], ◌∷◌, ◌++◌, String, str_eq, any, leb, ◌==◌, arith, All, All-append,
}
use jebao_flow_engine.Base.Action.{Action, check, ◌>>◌}
use jebao_flow_engine.Base.Result.{
  Error, device_connection_error, value_error, unsupported_capability_error,
}
use jebao_flow_engine.Devices.Simulator.{
  Setting, SimulatedCommand, Simulator, capability_eq, capability_of, change, connect, disconnect,
  get_state, require_connection, set_enabled, set_frequency, set_mode, set_power,
  simulate_connection_loss, simulator, to_enabled, to_power, to_mode, to_frequency, write,
}
use jebao_flow_engine.Protocol.Models.{DeviceCapabilities, DeviceState}

-- The part of the state that commands change.
pub record Settings : Type 0 where
  pub enabled : Bool
  pub power : ℕ
  pub mode : String
  pub frequency : Option ℕ

abbrev settings_of : DeviceState → Settings
settings_of s = record {
  enabled = s.enabled;
  power = s.power;
  mode = s.mode;
  frequency = s.frequency;
}

abbrev initial : DeviceCapabilities → Settings
initial c = record {
  enabled = false;
  power = c.power_limits.min_power;
  mode = "constant";
  frequency = none;
}

abbrev apply_setting : Setting → Settings → Settings
apply_setting (to_enabled b) s = record s { enabled = b }
apply_setting (to_power n) s = record s { power = n }
apply_setting (to_mode name) s = record s { mode = name }
apply_setting (to_frequency n) s = record s { frequency = some n }

-- The settings after the commands of a log.
pub replay : List SimulatedCommand → Settings → Settings
replay [] s = s
replay (c ∷ commands) s = replay commands (apply_setting c.setting s)

replay-snoc :
    (commands : List SimulatedCommand) (c : SimulatedCommand) (s : Settings)
    → replay (commands ++ (c ∷ [])) s ≡ apply_setting c.setting (replay commands s)
unfolding replay
replay-snoc [] c s = refl
replay-snoc (x ∷ commands) c s = replay-snoc commands c (apply_setting x.setting s)

-- A command that a device with these capabilities takes.
abbrev pub IsAllowed : DeviceCapabilities → Setting → Type 0
IsAllowed c (to_power n) =
    (c.power_limits.min_power ≤ n) × (n ≤ c.power_limits.max_power) × (n % c.power_step ≡ 0)
IsAllowed c (to_frequency n) = n ≤ 100
IsAllowed c (to_mode name) = str_eq name "" ≡ false
IsAllowed c (to_enabled b) = Unit {0}

-- The state is what its log says, and the log holds only commands that the device takes and can write.
pub record IsReplayed (d : Simulator) : Type 0 where
  pub settings : settings_of d.state ≡ replay d.commands (initial d.capabilities)
  pub allowed :
      All
        (λ (c : SimulatedCommand).
          IsAllowed d.capabilities c.setting
          × (any (capability_eq (capability_of c.setting)) d.capabilities.writable ≡ true))
        d.commands

settings_of-change :
    (setting : Setting) (now : ℕ) (s : DeviceState)
    → settings_of (change setting now s) ≡ apply_setting setting (settings_of s)
unfolding change
settings_of-change (to_enabled b) now s = refl
settings_of-change (to_power n) now s = refl
settings_of-change (to_mode name) now s = refl
settings_of-change (to_frequency n) now s = refl

-- A check keeps what the rest keeps.
guarded :
    (test : Bool) (e : Error) (k : Action Simulator (Unit {0})) (d : Simulator)
    → IsReplayed d
    → (test ≡ true → IsReplayed (k d).1)
    → IsReplayed ((check test e >> k) d).1
guarded true e k d r h = h refl
guarded false e k d r h = r

write-IsReplayed :
    (setting : Setting) (now : ℕ) (d : Simulator)
    → IsAllowed d.capabilities setting
    → IsReplayed d
    → IsReplayed (write setting now d).1
unfolding write require_connection
write-IsReplayed setting now d allowed r =
    let command : SimulatedCommand = record { setting = setting; issued_at = now } in
    guarded d.connected device_connection_error _ d r λ linked.
      guarded (any (capability_eq (capability_of setting)) d.capabilities.writable)
        unsupported_capability_error _ d r
        λ writable. record {
          settings =
              settings_of-change setting now d.state
              ∙ (ap (apply_setting setting) r.settings
                  ∙ sym (replay-snoc d.commands command (initial d.capabilities)));
          allowed = All-append _ d.commands (command ∷ []) r.allowed ((allowed, writable), tt);
        }

-- One operation, whether it raises or not; `get_state` leaves the device as it is.
pub data Step : Simulator → Simulator → Type 0 where
  connects : {d : Simulator} (now : ℕ) → Step d (connect now d).1
  disconnects : {d : Simulator} (now : ℕ) → Step d (disconnect now d).1
  loses :
      {d : Simulator} (reason : Option String) (now : ℕ)
      → Step d (simulate_connection_loss reason now d).1
  reads : {d : Simulator} (now : ℕ) → Step d (get_state now d).1
  enables : {d : Simulator} (b : Bool) (now : ℕ) → Step d (set_enabled b now d).1
  powers : {d : Simulator} (amount now : ℕ) → Step d (set_power amount now d).1
  modes : {d : Simulator} (name : String) (now : ℕ) → Step d (set_mode name now d).1
  paces : {d : Simulator} (amount now : ℕ) → Step d (set_frequency amount now d).1

pub data Reaches : Simulator → Simulator → Type 0 where
  stay : {d : Simulator} → Reaches d d
  go : {d e f : Simulator} → Step d e → Reaches e f → Reaches d f

get_state-same :
    (now : ℕ) (d : Simulator) (linked : Bool) → d.connected ≡ linked → (get_state now d).1 ≡ d
unfolding get_state require_connection
get_state-same now d true h = simp h
get_state-same now d false h = simp h

Step-IsReplayed : (d e : Simulator) → Step d e → IsReplayed d → IsReplayed e
unfolding connect disconnect simulate_connection_loss set_enabled set_power set_mode set_frequency
Step-IsReplayed d e (connects now) r = record { settings = r.settings; allowed = r.allowed }
Step-IsReplayed d e (disconnects now) r = record { settings = r.settings; allowed = r.allowed }
Step-IsReplayed d e (loses reason now) r = record { settings = r.settings; allowed = r.allowed }
Step-IsReplayed d e (reads now) r = subst IsReplayed (sym (get_state-same now d d.connected refl)) r
Step-IsReplayed d e (enables b now) r = write-IsReplayed (to_enabled b) now d tt r
Step-IsReplayed d e (powers amount now) r =
    let c = d.capabilities in
    guarded (leb c.power_limits.min_power amount && leb amount c.power_limits.max_power) value_error
      _ d r
      λ within. guarded (amount % c.power_step == 0) value_error _ d r λ stepped.
        write-IsReplayed (to_power amount) now d
          (ground (arith, within), ground (arith, within), ground (arith, stepped)) r
Step-IsReplayed d e (modes name now) r =
    guarded (not (str_eq name "")) value_error _ d r
      λ named. write-IsReplayed (to_mode name) now d (ground (arith, named)) r
Step-IsReplayed d e (paces amount now) r =
    guarded (leb amount 100) value_error _ d r
      λ within. write-IsReplayed (to_frequency amount) now d (ground (arith, within)) r

Reaches-IsReplayed : (d e : Simulator) → Reaches d e → IsReplayed d → IsReplayed e
Reaches-IsReplayed d e stay r = r
Reaches-IsReplayed d e (go {e = m} step rest) r =
    Reaches-IsReplayed m e rest (Step-IsReplayed d m step r)

-- After any run of a new simulated device the settings in its state are those that its log of commands gives, in order,
-- from the initial ones, and every command in the log is one that the device takes: within the limits, on the step, and
-- of a capability that it can write.
pub simulator-IsReplayed :
    (device_id : String) (capabilities : DeviceCapabilities) (now : ℕ) (e : Simulator)
    → Reaches (simulator device_id capabilities now) e
    → IsReplayed e
unfolding simulator replay
simulator-IsReplayed device_id capabilities now e run =
    Reaches-IsReplayed (simulator device_id capabilities now) e run
      (record { settings = refl; allowed = tt })
