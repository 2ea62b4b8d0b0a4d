-- ===== src/Devices/Lan/Writes.antt =====
-- The writes of devices/lan.py: when they happen, and what a successful one has shown.
use jebao_flow_engine.Base.{
  ℕ, zero, suc, ◌<◌, ◌≡◌, refl, sym, subst, ap, true, false, Option, arith, ◌⊎◌, inl, inr,
  Bool-cases, String, ◌==◌, if◌then◌else◌,
}
use jebao_flow_engine.Base.Action.{lift, continue, ◌>>=◌, gets}
use jebao_flow_engine.Base.Bytes.{Bytes}
use jebao_flow_engine.Base.Dict.{Dict}
use jebao_flow_engine.Base.Int.{ℤ}
use jebao_flow_engine.Base.Result.{
  Error, Result, Result-cases, ok, err, hardware_writes_disabled_error, state_verification_error,
}
use jebao_flow_engine.Devices.Lan.{
  LanDevice, has_all, update, on_session, sleep, read_values, read_back, remember, verify_changes,
  apply_changes,
}
use jebao_flow_engine.Devices.RawSession.{RawSession, Loop}
use jebao_flow_engine.Protocol.Schema.{ProductSchema, decode_status}
use jebao_flow_engine.Protocol.Value.{Value}

module _ {S : Type 0} (float_text : String → Option ℤ) (session : RawSession S)
    (loop : Loop S) where
  -- A locked adapter raises `HardwareWritesDisabledError` on every change, and neither its session nor anything it
  -- remembers is touched.
  pub apply_changes-locked :
      (d : LanDevice S) (changes : Dict Value)
      → d.allow_hardware_writes ≡ false
      → apply_changes float_text session loop changes d ≡ (err hardware_writes_disabled_error, d)
  unfolding apply_changes
  apply_changes-locked d changes locked = simp locked

abbrev pub values_of : ProductSchema → Result Bytes → Result (Dict Value)
values_of schema (ok raw) = decode_status schema raw
values_of schema (err e) = err e

continue-values_of :
    {S : Type 0} (r : Result Bytes) (d : LanDevice S)
    → continue r
        (λ raw. gets (λ (x : LanDevice S). x.schema) >>= λ schema. lift (decode_status schema raw))
        d
      ≡ (values_of d.schema r, d)
continue-values_of (ok raw) d = refl
continue-values_of (err e) d = refl

module _ {S : Type 0} (session : RawSession S) (loop : Loop S) where
  -- The delay in front of a read, and the state behind a read.
  abbrev pub pause : LanDevice S → S
  pause d = if d.readback_delay == 0 then d.session else loop.sleep d.readback_delay d.session

  abbrev pub with_session : LanDevice S → S → LanDevice S
  with_session d s = record d { session = s }

  abbrev pub values_at : LanDevice S → Result (Dict Value)
  values_at d = values_of d.schema (session.read_raw_state (pause d)).0

  abbrev pub attempt : LanDevice S → LanDevice S
  attempt d = with_session d (session.read_raw_state (pause d)).1

  -- The adapter after some reads.
  pub attempts : ℕ → LanDevice S → LanDevice S
  attempts zero d = d
  attempts (suc n) d = attempts n (attempt d)

  read_back_lem : (d : LanDevice S) → read_back session loop d ≡ (values_at d, attempt d)
  unfolding read_back read_values sleep on_session
  read_back_lem d = elim (Bool-cases (d.readback_delay == 0)) [
    | inl now ↦ rw now (
        continue-values_of (session.read_raw_state d.session).0
          (with_session d (session.read_raw_state d.session).1))
    | inr later ↦
        let s : S = loop.sleep d.readback_delay d.session in
        rw later (
          continue-values_of (session.read_raw_state s).0
            (with_session d (session.read_raw_state s).1))
  ]

  abbrev pub remembered : Dict Value → LanDevice S → LanDevice S
  remembered changes d = record d { last_sent_values = update d.last_sent_values changes }

  -- A read that reports other values than the changes ask for.
  abbrev pub IsMismatch : Dict Value → LanDevice S → Type 0
  IsMismatch changes d =
      (values : Dict Value) × (values_at d ≡ ok values) × (has_all values changes ≡ false)

  -- How the read-back ends, with its read number `n` counted from 0: the read shows all changes, it raises, or it is the
  -- last one and shows other values.
  abbrev pub IsVerdict : Result (Unit {0}) × LanDevice S → ℕ → Dict Value → LanDevice S → ℕ → Type 0
  IsVerdict outcome left changes d n =
      ((values : Dict Value) × (values_at (attempts n d) ≡ ok values)
        × (has_all values changes ≡ true)
        × (outcome ≡ (ok tt, remembered changes (attempts (suc n) d))))
      ⊎ (((raised : Error) × (values_at (attempts n d) ≡ err raised)
            × (outcome ≡ (err raised, attempts (suc n) d)))
          ⊎ ((suc n ≡ left)
              × IsMismatch changes (attempts n d)
              × (outcome ≡ (err state_verification_error, attempts (suc n) d))))

  -- The read-back of an adapter that has left some reads, and ends with an outcome.
  abbrev pub IsReadBack : Result (Unit {0}) × LanDevice S → ℕ → Dict Value → LanDevice S → Type 0
  IsReadBack outcome left changes d =
      (n : ℕ) × (n < left)
      × ((m : ℕ) → m < n → IsMismatch changes (attempts m d))
      × IsVerdict outcome left changes d n

  IsVerdict-later :
      (outcome : Result (Unit {0}) × LanDevice S) (left : ℕ) (changes : Dict Value)
      (d : LanDevice S) (n : ℕ)
      → IsVerdict outcome left changes (attempt d) n
      → IsVerdict outcome (suc left) changes d (suc n)
  unfolding attempts
  IsVerdict-later outcome left changes d n (inl shown) = inl shown
  IsVerdict-later outcome left changes d n (inr (inl failed)) = inr (inl failed)
  IsVerdict-later outcome left changes d n (inr (inr (last, other, done))) =
      inr (inr (ap suc last, other, done))

  earlier_reading :
      (changes : Dict Value) (d : LanDevice S) (n : ℕ)
      → IsMismatch changes d
      → ((m : ℕ) → m < n → IsMismatch changes (attempts m (attempt d)))
      → (m : ℕ) → m < suc n
      → IsMismatch changes (attempts m d)
  unfolding attempts
  earlier_reading changes d n first later zero h = first
  earlier_reading changes d n first later (suc m) h = later m (omega (arith, h))

  -- The read-back of `_apply_changes` ends: it reads the device as long as the reads show other values than asked for, at
  -- most as often as it has attempts. The first read with all changes makes it succeed and remember them, a read that
  -- raises is passed on, and a last read with other values raises `StateVerificationError`.
  pub verify_changes_lem :
      (left : ℕ) (changes : Dict Value) (d : LanDevice S)
      → 0 < left
      → IsReadBack (verify_changes session loop left changes d) left changes d
  unfolding verify_changes remember attempts
  verify_changes_lem zero changes d h = absurd (omega (arith, h))
  verify_changes_lem (suc left) changes d h = elim (Result-cases (values_at d)) [
    | inr (raised, failed) ↦ (
      0,
      omega arith,
      (λ m few. absurd (omega (arith, few))),
      inr (inl (raised, failed, rw (read_back_lem d, continue, failed) refl)),
    )
    | inl (values, read) ↦ elim (Bool-cases (has_all values changes)) [
      | inl all ↦ (
        0,
        omega arith,
        (λ m few. absurd (omega (arith, few))),
        inl (values, read, all, rw (read_back_lem d, continue, read, all) refl),
      )
      | inr other ↦ elim (Bool-cases (left == 0)) [
        | inl last ↦ (
          0,
          omega arith,
          (λ m few. absurd (omega (arith, few))),
          inr (
              inr (
                ground (arith, last),
                (values, read, other),
                rw (read_back_lem d, continue, read, other, last) refl,
              )),
        )
        | inr more ↦
            let onward : verify_changes session loop (suc left) changes d
                ≡ verify_changes session loop left changes (attempt d) =
              rw (read_back_lem d, continue, read, other, more) refl in
            let (n, few, others, verdict) =
              verify_changes_lem left changes (attempt d) (ground (arith, more)) in
            (
              suc n,
              omega (arith, few),
              earlier_reading changes d n (values, read, other) others,
              IsVerdict-later (verify_changes session loop (suc left) changes d) left changes d n (
                  subst (λ outcome. IsVerdict outcome left changes (attempt d) n) (sym onward)
                    verdict),
            )
      ]
    ]
  ]
