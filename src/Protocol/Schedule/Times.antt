-- ===== src/Protocol/Schedule/Times.antt =====
-- The clock times of a schedule's slots: `_format_time`, and the slots that become entries.
use jebao_flow_engine.Base.{
  ℕ, ◌+◌, ◌*◌, ◌-◌, ◌<◌, ◌≡◌, refl, subst, if◌then◌else◌, ◌++◌, Bool, true, false, Option, none,
  some, [], ◌∷◌, arith, ◌⊎◌, inl, inr, get_elem?, ◌&&◌, leb, ◌==◌, Bool-cases,
}
use jebao_flow_engine.Base.Bytes.{Bytes}
use jebao_flow_engine.Base.Result.{
  ok, err, require, require-eq-ok, >>=-eq-ok, ok-injective, value_error, index_error,
}
use jebao_flow_engine.Protocol.Models.{ScheduleEntry, Text}
use jebao_flow_engine.Protocol.Schedule.{
  ScheduleSpec, byte_at, format_time, two_digits, decode_slot,
}

-- A text `HH:MM`, as an hour and a minute.
unfoldable pub read_time : Text → Option (ℕ × ℕ)
read_time (a ∷ b ∷ colon ∷ c ∷ d ∷ []) =
    if colon == 58 then some ((a - 48) * 10 + (b - 48), (c - 48) * 10 + (d - 48)) else none
read_time _ = none

-- A time of the day, where the end of the day is allowed or not.
unfoldable pub IsTime : ℕ → ℕ → Bool → Type 0
IsTime hour minute allow_24 =
    ((hour < 24) × (minute < 60)) ⊎ ((allow_24 ≡ true) × (hour ≡ 24) × (minute ≡ 0))

-- `_format_time` writes a time of the day as a text that reads back as its hour and its minute. For any other pair
-- it raises `ValueError`; 24:00 is a time only where it is allowed.
pub read_time-format_time :
    (hour minute : ℕ) (allow_24 : Bool)
    → (IsTime hour minute allow_24
        × ((text : Text) × (format_time hour minute allow_24 ≡ ok text)
            × (read_time text ≡ some (hour, minute))))
      ⊎ ((¬ IsTime hour minute allow_24) × (format_time hour minute allow_24 ≡ err value_error))
unfolding format_time read_time IsTime
read_time-format_time hour minute allow_24 = elim (Bool-cases (leb hour 23 && leb minute 59)) [
  | inl early ↦ inl (
    inl (ground arith, ground arith),
    (two_digits hour ++ (58 ∷ []) ++ two_digits minute, rw early refl, ground arith),
  )
  | inr late ↦ elim (Bool-cases (allow_24 && hour == 24 && minute == 0)) [
    | inl end ↦ inl (
      inr (ground arith, ground arith, ground arith),
      (50 ∷ 52 ∷ 58 ∷ 48 ∷ 48 ∷ [], rw (late, end) refl, ground arith),
    )
    | inr other ↦ inr (λ h. ground arith, rw (late, other) refl)
  ]
]

format_time-IsTime :
    (hour minute : ℕ) (allow_24 : Bool) {text : Text}
    → format_time hour minute allow_24 ≡ ok text
    → IsTime hour minute allow_24 × (read_time text ≡ some (hour, minute))
format_time-IsTime hour minute allow_24 done = elim (read_time-format_time hour minute allow_24) [
  | inl (time, (text, made, read)) ↦
      (time, subst (λ t. read_time t ≡ some (hour, minute)) (ok-injective (cc)) read)
  | inr (other, failed) ↦ cc
]

-- The bytes at two indices, written as a text.
unfoldable pub IsTimeOf : Bytes → ℕ → ℕ → Bool → Text → Type 0
IsTimeOf slot i j allow_24 text =
    (hour : ℕ) × (minute : ℕ) × (get_elem? slot i ≡ some hour)
    × (get_elem? slot j ≡ some minute)
    × IsTime hour minute allow_24
    × (read_time text ≡ some (hour, minute))

-- What an entry says of the slot that it was read from.
pub record IsEntryOf (spec : ScheduleSpec) (slot : Bytes) (e : ScheduleEntry) : Type 0 where
  pub starts : IsTimeOf slot 0 1 false e.start
  pub stops : IsTimeOf slot 2 3 true e.stop
  pub coded : get_elem? slot 4 ≡ some e.mode_code
  pub named : get_elem? spec.modes e.mode_code ≡ some e.mode
  pub decoded : spec.decode_parameters e.mode slot ≡ ok e.parameters

IsTimeOf-intro :
    (slot : Bytes) (i j : ℕ) (allow_24 : Bool) (hour minute : ℕ) (text : Text)
    → byte_at slot i ≡ ok hour
    → byte_at slot j ≡ ok minute
    → format_time hour minute allow_24 ≡ ok text
    → IsTimeOf slot i j allow_24 text
unfolding IsTimeOf
IsTimeOf-intro slot i j allow_24 hour minute text h m done =
    let (time, read) = format_time-IsTime hour minute allow_24 done in
    (hour, minute, require-eq-ok _ _ h, require-eq-ok _ _ m, time, read)

pub decode_slot-IsEntryOf :
    (spec : ScheduleSpec) (slot : Bytes) (slot_index : ℕ) (e : ScheduleEntry)
    → decode_slot spec slot slot_index ≡ ok e
    → IsEntryOf spec slot e × (e.slot ≡ slot_index)
unfolding decode_slot
decode_slot-IsEntryOf spec slot slot_index e done =
    let (h1, b0, k0) = >>=-eq-ok (byte_at slot 0) _ done in
    let (m1, b1, k1) = >>=-eq-ok (byte_at slot 1) _ k0 in
    let (start, t1, k2) = >>=-eq-ok (format_time h1 m1 false) _ k1 in
    let (h2, b2, k3) = >>=-eq-ok (byte_at slot 2) _ k2 in
    let (m2, b3, k4) = >>=-eq-ok (byte_at slot 3) _ k3 in
    let (stop, t2, k5) = >>=-eq-ok (format_time h2 m2 true) _ k4 in
    let (code, b4, k6) = >>=-eq-ok (byte_at slot 4) _ k5 in
    let (mode, named, k7) = >>=-eq-ok (require index_error (get_elem? spec.modes code)) _ k6 in
    let (parameters, decoded, k8) = >>=-eq-ok (spec.decode_parameters mode slot) _ k7 in
    subst (λ (x : ScheduleEntry). IsEntryOf spec slot x × (x.slot ≡ slot_index)) (ok-injective k8)
      (
        record {
          starts = IsTimeOf-intro slot 0 1 false h1 m1 start b0 b1 t1;
          stops = IsTimeOf-intro slot 2 3 true h2 m2 stop b2 b3 t2;
          coded = require-eq-ok _ _ b4;
          named = require-eq-ok _ _ named;
          decoded = decoded;
        },
        refl,
      )
