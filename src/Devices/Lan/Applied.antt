-- ===== src/Devices/Lan/Applied.antt =====
-- `_apply_changes` of devices/lan.py as a whole.
use jebao_flow_engine.Base.{
  ℕ, ◌+◌, ◌≤◌, ◌<◌, ◌≡◌, ◌≢◌, refl, sym, subst, true, false, Option, none, some, arith, ◌⊎◌, inl,
  inr, Bool-cases, String, ltb,
}
use jebao_flow_engine.Base.Action.{continue}
use jebao_flow_engine.Base.Bytes.{Bytes}
use jebao_flow_engine.Base.Dict.{Dict}
use jebao_flow_engine.Base.Int.{ℤ}
use jebao_flow_engine.Base.Result.{
  Error, Result, Result-cases, ok, err, hardware_writes_disabled_error,
}
use jebao_flow_engine.Devices.Lan.{
  LanDevice, has_all, on_session, sleep, remaining_of, wait_since, respect_command_interval,
  note_command, write_changes, apply_changes,
}
use jebao_flow_engine.Devices.Lan.Writes.{with_session, IsReadBack, verify_changes_lem}
use jebao_flow_engine.Devices.RawSession.{RawSession, Loop, LoopLaws}
use jebao_flow_engine.Protocol.Control.{build_control_payload}
use jebao_flow_engine.Protocol.Value.{Value}
use mathlib.Core.Option.{none-ne-some, some-injective}

ok-ne-err : (u : Unit {0}) (e : Error) → ok u ≢ err e
ok-ne-err u e h = cc

module _ {S : Type 0} (session : RawSession S) (loop : Loop S) (laws : LoopLaws session loop) where
  -- The loop's clock is past the interval behind the last command.
  abbrev pub HasWaited : LanDevice S → S → Type 0
  HasWaited d s =
      (last : ℕ) → d.last_command_at ≡ some last → last + d.minimum_command_interval ≤ loop.time s

  wait_since_lem :
      (since : Option ℕ) (d : LanDevice S)
      → (s : S) × (wait_since session loop since d ≡ (ok tt, with_session session loop d s))
        × ((last : ℕ) → since ≡ some last → last + d.minimum_command_interval ≤ loop.time s)
  unfolding wait_since remaining_of sleep
  wait_since_lem none d = (d.session, refl, λ last h. absurd (none-ne-some last h))
  wait_since_lem (some last) d = elim (Bool-cases (ltb 0 (remaining_of session loop d last))) [
    | inl early ↦
        let delay = remaining_of session loop d last in
        (
          loop.sleep delay d.session,
          rw early refl,
          λ other h. omega (arith, some-injective _ _ h, laws.sleeps delay d.session),
        )
    | inr late ↦ (d.session, rw late refl, λ other h. ground (arith, some-injective _ _ h, late))
  ]

  respect_command_interval-HasWaited :
      (d : LanDevice S)
      → (s : S) × (respect_command_interval session loop d ≡ (ok tt, with_session session loop d s))
        × HasWaited d s
  unfolding respect_command_interval
  respect_command_interval-HasWaited d = wait_since_lem d.last_command_at d

  -- The adapter behind a control payload that has gone out.
  abbrev pub noted : LanDevice S → S → LanDevice S
  noted d after = note_command session loop (with_session session loop d after)

  -- A write that ends with an outcome: the control payload goes out once, not before the interval is over. If the session
  -- raises, so does the write, and otherwise the device is read back.
  pub record IsWritten (payload : Bytes) (changes : Dict Value) (d : LanDevice S)
      (outcome : Result (Unit {0}) × LanDevice S) : Type 0 where
    pub before : S
    pub after : S
    pub waited : HasWaited d before
    pub ending :
        ((raised : Error) × (session.send_raw_control payload before ≡ (err raised, after))
          × (outcome ≡ (err raised, with_session session loop d after)))
        ⊎ ((ack : Bytes) × (session.send_raw_control payload before ≡ (ok ack, after))
            × IsReadBack session loop outcome d.readback_attempts changes (noted d after))

  write_changes-IsWritten :
      (d : LanDevice S) (payload : Bytes) (changes : Dict Value)
      → 0 < d.readback_attempts
      → IsWritten payload changes d (write_changes session loop payload changes d)
  unfolding write_changes on_session note_command
  write_changes-IsWritten d payload changes some_attempts =
      let (before, done, late) = respect_command_interval-HasWaited d in
      let after = (session.send_raw_control payload before).1 in
      record {
        before = before;
        after = after;
        waited = late;
        ending = elim (Result-cases (session.send_raw_control payload before).0) [
          | inr (raised, failed) ↦
              inl (raised, (λ i. (failed i, after)), rw (done, continue, failed) refl)
          | inl (ack, sent) ↦ inr (
            ack,
            (λ i. (sent i, after)),
            subst
                (λ outcome.
                  IsReadBack session loop outcome d.readback_attempts changes (noted d after))
                (sym (rw (done, continue, sent) refl))
                (verify_changes_lem session loop d.readback_attempts changes (noted d after)
                  some_attempts),
          )
        ];
      }

module _ {S : Type 0} (float_text : String → Option ℤ) (session : RawSession S) (loop : Loop S)
    (laws : LoopLaws session loop) where
  -- How `_apply_changes` ends: locked, with changes that have no payload, with changes that were sent before, or with a
  -- write.
  abbrev pub IsOutcome : Dict Value → LanDevice S → Result (Unit {0}) × LanDevice S → Type 0
  IsOutcome changes d outcome =
      ((d.allow_hardware_writes ≡ false) × (outcome ≡ (err hardware_writes_disabled_error, d)))
      ⊎ ((d.allow_hardware_writes ≡ true)
          × (((raised : Error) × (build_control_payload float_text d.schema changes ≡ err raised)
                × (outcome ≡ (err raised, d)))
              ⊎ ((payload : Bytes) × (build_control_payload float_text d.schema changes
                    ≡ ok payload)
                  × (((has_all d.last_sent_values changes ≡ true) × (outcome ≡ (ok tt, d)))
                      ⊎ ((has_all d.last_sent_values changes ≡ false)
                          × IsWritten session loop laws payload changes d outcome)))))

  -- With at least one read-back attempt `_apply_changes` always ends, in one of these ways. A locked adapter raises
  -- `HardwareWritesDisabledError`, changes without a control payload raise what the encoder raises, and changes that it
  -- has sent before are not sent again; in these cases the adapter and its session stay as they are. Otherwise the
  -- payload is sent once, at the earliest the minimum interval after the last command, and what the session raises on
  -- it is raised. If the session accepts it, the device is read until a read shows every change, at most
  -- `readback_attempts` times: it succeeds and remembers the changes if one does, and it raises if a read raises or the
  -- last one shows other values.
  pub apply_changes-IsOutcome :
      (d : LanDevice S) (changes : Dict Value)
      → 0 < d.readback_attempts
      → IsOutcome changes d (apply_changes float_text session loop changes d)
  unfolding apply_changes
  apply_changes-IsOutcome d changes some_attempts = elim (Bool-cases d.allow_hardware_writes) [
    | inr locked ↦ inl (locked, rw locked refl)
    | inl permitted ↦ inr (
      permitted,
      elim (Result-cases (build_control_payload float_text d.schema changes)) [
        | inr (raised, failed) ↦ inl (raised, failed, rw (permitted, failed, continue) refl)
        | inl (payload, built) ↦ inr (
          payload,
          built,
          elim (Bool-cases (has_all d.last_sent_values changes)) [
            | inl same ↦ inl (same, rw (permitted, built, continue, same) refl)
            | inr other ↦ inr (
              other,
              subst (IsWritten session loop laws payload changes d)
                  (sym (rw (permitted, built, continue, other) refl))
                  (write_changes-IsWritten session loop laws d payload changes some_attempts),
            )
          ],
        )
      ],
    )
  ]
