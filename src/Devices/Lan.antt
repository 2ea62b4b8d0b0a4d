-- ===== src/Devices/Lan.antt =====
-- devices/lan.py: the adapter of one physical device. Its constants and its mutable attributes are
-- one record, with the state of its session; `asyncio.Lock` serializes the calls, so one call runs at a time.
pub mod Targets
pub mod Writes
pub mod Applied
pub mod States
pub mod Commands
pub mod Locked
pub mod Limits
use jebao_flow_engine.Base.{
  ℕ, zero, suc, ◌+◌, ◌-◌, ◌*◌, ◌%◌, Bool, true, false, not, ◌&&◌, ◌||◌, Option, none, some, List,
  [], ◌∷◌, ◌++◌, String, str_eq, all, leb, ltb, ◌==◌, if◌then◌else◌,
}
use jebao_flow_engine.Base.Action.{Action, ◌>>=◌, ◌>>◌, lift, check, gets, modify}
use jebao_flow_engine.Base.Bytes.{Bytes}
use jebao_flow_engine.Base.Dict.{Dict, lookup, insert}
use jebao_flow_engine.Base.Int.{ℤ}
use jebao_flow_engine.Base.Result.{
  Result, ok, err, value_error, hardware_writes_disabled_error, state_verification_error,
}
use jebao_flow_engine.Devices.RawSession.{RawSession, Loop}
use jebao_flow_engine.Protocol.Control.{build_control_payload}
use jebao_flow_engine.Protocol.Schema.{ProductSchema, decode_status}
use jebao_flow_engine.Protocol.Value.{Value, value_eq}
use jebao_flow_engine.Safety.{PowerLimits}

pub record LanDevice (S : Type 0) : Type 0 where
  pub device_id : String
  pub address : String
  pub schema : ProductSchema
  pub power_limits : PowerLimits
  pub power_step : ℕ
  pub minimum_command_interval : ℕ
  pub readback_delay : ℕ
  pub readback_attempts : ℕ
  pub allow_hardware_writes : Bool
  pub session : S
  pub last_command_at : Option ℕ
  pub last_sent_values : Dict Value

-- `all(values.get(name) == value for name, value in changes.items())`
unfoldable pub is_equal_at : Dict Value → String × Value → Bool
is_equal_at values change = elim (lookup change.0 values) [
  | none ↦ false
  | some actual ↦ value_eq actual change.1
]

unfoldable pub has_all : Dict Value → Dict Value → Bool
unfolding is_equal_at
has_all values changes = all (is_equal_at values) changes

-- `d.update(changes)`
unfoldable pub update : Dict Value → Dict Value → Dict Value
update d [] = d
update d ((name, value) ∷ changes) = update (insert name value d) changes

module _ {S : Type 0} where
  -- A call of the session.
  unfoldable pub on_session : {A : Type 0} → Action S A → Action (LanDevice S) A
  on_session call d = ((call d.session).0, record d { session = (call d.session).1 })

  unfoldable pub forget : LanDevice S → LanDevice S
  forget d = record d { last_command_at = none; last_sent_values = [] }

module _ {S : Type 0} (session : RawSession S) (loop : Loop S) where
  unfoldable pub connect : Action (LanDevice S) (Unit {0})
  unfolding on_session forget
  connect = do on_session session.connect; passcode ← on_session session.authenticate; modify forget

  unfoldable pub disconnect : Action (LanDevice S) (Unit {0})
  unfolding on_session forget
  disconnect = do on_session session.disconnect; modify forget

  -- `await asyncio.sleep(delay)`
  unfoldable pub sleep : ℕ → Action (LanDevice S) (Unit {0})
  sleep delay = modify (λ d. record d { session = loop.sleep delay d.session })

  unfoldable pub read_values : Action (LanDevice S) (Dict Value)
  unfolding on_session
  read_values = do
    raw ← on_session session.read_raw_state
    schema ← gets (λ (d : LanDevice S). d.schema)
    lift (decode_status schema raw)

  unfoldable pub remaining_of : LanDevice S → ℕ → ℕ
  remaining_of d last = last + d.minimum_command_interval - loop.time d.session

  -- `last` is `_last_command_at`.
  unfoldable pub wait_since : Option ℕ → Action (LanDevice S) (Unit {0})
  unfolding sleep remaining_of
  wait_since none d = (ok tt, d)
  wait_since (some last) d =
      if ltb 0 (remaining_of d last) then sleep (remaining_of d last) d else (ok tt, d)

  unfoldable pub respect_command_interval : Action (LanDevice S) (Unit {0})
  unfolding wait_since
  respect_command_interval d = wait_since d.last_command_at d

  -- One attempt of the read-back: the delay, and the values that the device reports.
  unfoldable pub read_back : Action (LanDevice S) (Dict Value)
  unfolding sleep read_values
  read_back = do
    readback_delay ← gets (λ (d : LanDevice S). d.readback_delay)
    if readback_delay == 0 then lift (ok tt) else sleep readback_delay
    read_values

  unfoldable pub remember : Dict Value → Action (LanDevice S) (Unit {0})
  unfolding update
  remember changes = modify (λ d. record d { last_sent_values = update d.last_sent_values changes })

  -- The `for` loop over the attempts, of which some are left.
  unfoldable pub verify_changes : ℕ → Dict Value → Action (LanDevice S) (Unit {0})
  unfolding read_back has_all remember
  verify_changes zero changes = lift (ok tt)
  verify_changes (suc left) changes = read_back >>= λ values. elim (has_all values changes) [
    | true ↦ remember changes
    | false ↦ elim (left == 0) [
      | true ↦ lift (err state_verification_error)
      | false ↦ verify_changes left changes
    ]
  ]

  unfoldable pub note_command : LanDevice S → LanDevice S
  note_command d = record d { last_command_at = some (loop.time d.session) }

  -- The write of `_apply_changes` and its read-back.
  unfoldable pub write_changes : Bytes → Dict Value → Action (LanDevice S) (Unit {0})
  unfolding respect_command_interval on_session note_command verify_changes
  write_changes payload changes = do
    respect_command_interval
    ack ← on_session (session.send_raw_control payload)
    modify note_command
    readback_attempts ← gets (λ (d : LanDevice S). d.readback_attempts)
    verify_changes readback_attempts changes

-- `float_text` is `int(float(text))`, where the text is a number.
module _ {S : Type 0} (float_text : String → Option ℤ) (session : RawSession S)
    (loop : Loop S) where
  unfoldable pub apply_changes : Dict Value → Action (LanDevice S) (Unit {0})
  unfolding write_changes has_all
  apply_changes changes = do
    d ← gets (λ (d : LanDevice S). d)
    check d.allow_hardware_writes hardware_writes_disabled_error
    payload ← lift (build_control_payload float_text d.schema changes)
    if has_all d.last_sent_values changes
        then lift (ok tt)
        else write_changes session loop payload changes
