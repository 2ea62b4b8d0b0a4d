-- ===== src/Devices/Lan/Locked.antt =====
-- Runs of the operations of devices/lan.py on an adapter whose hardware writes are locked.
use jebao_flow_engine.Base.{ℕ, ◌≡◌, sym, ap, subst, Bool, false, Option, String}
use jebao_flow_engine.Base.Action.{Action, Keeps, >>=-Keeps, continue, ◌>>=◌}
use jebao_flow_engine.Base.Dict.{Dict}
use jebao_flow_engine.Base.Int.{ℤ}
use jebao_flow_engine.Base.Result.{Result, ok, err}
use jebao_flow_engine.Devices.Lan.{
  LanDevice, apply_changes, connect, disconnect, forget, on_session,
}
use jebao_flow_engine.Devices.Lan.Commands.{
  command, get_state, set_enabled, set_power, set_mode, set_frequency, write_target,
}
use jebao_flow_engine.Devices.Lan.States.{Numerals}
use jebao_flow_engine.Devices.Lan.Targets.{
  enabled_change, power_change, mode_change, frequency_change, target_changes,
}
use jebao_flow_engine.Devices.Lan.Writes.{apply_changes-locked}
use jebao_flow_engine.Devices.RawSession.{RawSession, Loop}
use jebao_flow_engine.Protocol.Models.{DeviceTarget}
use jebao_flow_engine.Protocol.Value.{Value}

-- What the calls of a session but `send_raw_control` keep.
pub record IsKept {S : Type 0} (session : RawSession S) (P : S → Type 0) : Type 0 where
  pub by_connect : (s : S) → P s → P (session.connect s).1
  pub by_authenticate : (s : S) → P s → P (session.authenticate s).1
  pub by_disconnect : (s : S) → P s → P (session.disconnect s).1
  pub by_read : (s : S) → P s → P (session.read_raw_state s).1

module _ {S : Type 0} (numerals : Numerals) (float_text : String → Option ℤ)
    (session : RawSession S) (loop : Loop S) where
  -- One operation, whether it raises or not.
  pub data Step : LanDevice S → LanDevice S → Type 0 where
    connects : {d : LanDevice S} → Step d (connect session loop d).1
    disconnects : {d : LanDevice S} → Step d (disconnect session loop d).1
    reads : {d : LanDevice S} (now : ℕ) → Step d (get_state numerals session now d).1
    enables : {d : LanDevice S} (b : Bool) → Step d (set_enabled float_text session loop b d).1
    powers : {d : LanDevice S} (amount : ℕ) → Step d (set_power float_text session loop amount d).1
    modes : {d : LanDevice S} (name : String) → Step d (set_mode float_text session loop name d).1
    paces :
        {d : LanDevice S} (amount : ℕ) → Step d (set_frequency float_text session loop amount d).1
    writes :
        {d : LanDevice S} (target : DeviceTarget)
        → Step d (write_target float_text session loop target d).1

  pub data Reaches : LanDevice S → LanDevice S → Type 0 where
    stay : {d : LanDevice S} → Reaches d d
    go : {d e f : LanDevice S} → Step d e → Reaches e f → Reaches d f

  module _ (P : S → Type 0) (kept : IsKept session P) where
    -- Locked, with the property of the session.
    abbrev pub IsIdle : LanDevice S → Type 0
    IsIdle d = (d.allow_hardware_writes ≡ false) × P d.session

    abbrev StaysIdle : LanDevice S → LanDevice S → Type 0
    StaysIdle d e = IsIdle d → IsIdle e

    StaysIdle-trans : (d e f : LanDevice S) → StaysIdle d e → StaysIdle e f → StaysIdle d f
    StaysIdle-trans d e f h k idle = k (h idle)

    -- A block of two steps, and one whose first step changes nothing.
    both :
        {A B : Type 0} (m : Action (LanDevice S) A) (f : A → Action (LanDevice S) B)
        → Keeps StaysIdle m
        → ((a : A) → Keeps StaysIdle (f a))
        → Keeps StaysIdle (m >>= f)
    both m f = >>=-Keeps StaysIdle m f StaysIdle-trans

    apply_changes-StaysIdle :
        (changes : Dict Value) → Keeps StaysIdle (apply_changes float_text session loop changes)
    apply_changes-StaysIdle changes d idle =
        subst IsIdle
          (ap (λ p. p.1) (sym (apply_changes-locked float_text session loop d changes idle.0))) idle

    on_session-StaysIdle :
        {A : Type 0} (call : Action S A)
        → ((s : S) → P s → P (call s).1)
        → Keeps StaysIdle (on_session call)
    unfolding on_session
    on_session-StaysIdle call h d idle = (idle.0, h d.session idle.1)

    continue-StaysIdle :
        (r : Result (Dict Value))
        → Keeps StaysIdle (continue r (apply_changes float_text session loop))
    continue-StaysIdle (ok changes) = apply_changes-StaysIdle changes
    continue-StaysIdle (err raised) = λ d idle. idle

    Step-StaysIdle : (d e : LanDevice S) → Step d e → StaysIdle d e
    unfolding connect disconnect forget get_state command set_enabled set_power set_mode
        set_frequency write_target
    Step-StaysIdle d e connects =
        both (on_session session.connect) _ (on_session-StaysIdle session.connect kept.by_connect)
          (λ u.
            both (on_session session.authenticate) _
              (on_session-StaysIdle session.authenticate kept.by_authenticate)
              (λ passcode d idle. idle))
          d
    Step-StaysIdle d e disconnects =
        both (on_session session.disconnect) _
          (on_session-StaysIdle session.disconnect kept.by_disconnect) (λ u d idle. idle) d
    Step-StaysIdle d e (reads now) =
        both (on_session session.read_raw_state) _
          (on_session-StaysIdle session.read_raw_state kept.by_read) (λ raw d idle. idle) d
    Step-StaysIdle d e (enables b) = continue-StaysIdle (enabled_change d.schema b) d
    Step-StaysIdle d e (powers amount) =
        continue-StaysIdle (power_change d.schema d.power_limits d.power_step amount) d
    Step-StaysIdle d e (modes name) = continue-StaysIdle (mode_change d.schema name) d
    Step-StaysIdle d e (paces amount) = continue-StaysIdle (frequency_change d.schema amount) d
    Step-StaysIdle d e (writes target) =
        continue-StaysIdle (target_changes d.schema d.power_limits d.power_step target) d

    -- Whatever is asked of an adapter with locked writes, in whatever order, it stays locked, and what the connecting,
    -- disconnecting and reading calls of its session keep is kept: it never calls `send_raw_control`.
    pub Reaches-IsIdle : (d e : LanDevice S) → Reaches d e → IsIdle d → IsIdle e
    Reaches-IsIdle d e stay idle = idle
    Reaches-IsIdle d e (go {e = m} step rest) idle =
        Reaches-IsIdle m e rest (Step-StaysIdle d m step idle)
