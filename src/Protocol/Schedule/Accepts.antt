-- ===== src/Protocol/Schedule/Accepts.antt =====
-- Which buffers `decode_schedule` decodes, and what a decoded schedule says of them.
use jebao_flow_engine.Base.{
  ◌+◌, ◌≤◌, ◌≡◌, refl, Bool, none, some, [], ◌∷◌, arith, ◌⊎◌, inl, inr, ◌≢◌, Bool-cases, length,
  All, String, leb, eq_iff, subst, slice, ==_iff, str_eq, ℕ_discrete, Option-cases,
}
use jebao_flow_engine.Base.Bytes.{Bytes}
use jebao_flow_engine.Base.Dict.{Dict, lookup}
use jebao_flow_engine.Base.Result.{ok, err, value_error, ensure}
use mathlib.Core.Option.{none-ne-some, some-injective}
use jebao_flow_engine.Protocol.Models.{DeviceSchedule, LocalTime}
use jebao_flow_engine.Protocol.Schedule.{
  ScheduleSpec, byte_at, specs, dc_parameters, local_wavemaker_parameters,
  local_wavemaker_pro_parameters, aquarium_pump_parameters, decode_known, decode_for,
  decode_schedule, slot_capacity,
}
use jebao_flow_engine.Protocol.Schedule.Dates.{decode_device_local_time_lem, IsClockOf}
use jebao_flow_engine.Protocol.Schedule.Rounds.{
  IsCaught, IsRead, read_slots_lem, >>=-IsCaught, require-IsCaught, ensure-IsCaught, ok-IsCaught,
}

dc_parameters-IsCaught : (mode : String) (slot : Bytes) → IsCaught (dc_parameters mode slot)
unfolding dc_parameters
dc_parameters-IsCaught mode slot = >>=-IsCaught (byte_at slot 5) _ (require-IsCaught _) λ a.
    >>=-IsCaught (byte_at slot 6) _ (require-IsCaught _)
      λ b. >>=-IsCaught (byte_at slot 7) _ (require-IsCaught _) λ c. ok-IsCaught _

local_wavemaker_parameters-IsCaught :
    (mode : String) (slot : Bytes) → IsCaught (local_wavemaker_parameters mode slot)
unfolding local_wavemaker_parameters
local_wavemaker_parameters-IsCaught mode slot =
    >>=-IsCaught (byte_at slot 7) _ (require-IsCaught _) λ a.
      >>=-IsCaught (ensure (leb a 1) value_error) _ (ensure-IsCaught _) λ u.
        >>=-IsCaught (byte_at slot 5) _ (require-IsCaught _)
          λ b. >>=-IsCaught (byte_at slot 6) _ (require-IsCaught _) λ c. ok-IsCaught _

local_wavemaker_pro_parameters-IsCaught :
    (mode : String) (slot : Bytes) → IsCaught (local_wavemaker_pro_parameters mode slot)
unfolding local_wavemaker_pro_parameters
local_wavemaker_pro_parameters-IsCaught mode slot =
    >>=-IsCaught (byte_at slot 5) _ (require-IsCaught _) λ a.
      >>=-IsCaught (byte_at slot 6) _ (require-IsCaught _) λ b.
        >>=-IsCaught (byte_at slot 7) _ (require-IsCaught _)
          λ c. >>=-IsCaught (byte_at slot 8) _ (require-IsCaught _) λ d. ok-IsCaught _

aquarium_pump_parameters-IsCaught :
    (mode : String) (slot : Bytes) → IsCaught (aquarium_pump_parameters mode slot)
unfolding aquarium_pump_parameters
aquarium_pump_parameters-IsCaught mode slot =
    >>=-IsCaught (byte_at slot 5) _ (require-IsCaught _) λ a. ok-IsCaught _

-- A specification whose clock lies within its status, and whose decoder raises only what is caught.
record IsAudited (spec : ScheduleSpec) : Type 0 where
  safe : (mode : String) (slot : Bytes) → IsCaught (spec.decode_parameters mode slot)
  date_fits : spec.ymd_offset + 4 ≤ spec.raw_status_size
  time_fits : spec.hms_offset + 4 ≤ spec.raw_status_size

pub All-lookup :
    (P : String → ScheduleSpec → Type 0) (key : String) (d : Dict ScheduleSpec)
    {spec : ScheduleSpec}
    → All (λ (entry : String × ScheduleSpec). P entry.0 entry.1) d
    → lookup key d ≡ some spec
    → P key spec
unfolding lookup
All-lookup P key [] h found = absurd (none-ne-some _ found)
All-lookup P key ((k, v) ∷ d) h found = elim (Bool-cases (str_eq k key)) [
  | inl same ↦
      subst (P key) (some-injective _ _ (rw same at found))
        (subst (λ name. P name v) ((eq_iff k key).0 same) h.0)
  | inr other ↦ All-lookup P key d h.1 (rw other at found)
]

specs-IsAudited : All (λ (entry : String × ScheduleSpec). IsAudited entry.1) specs
unfolding specs
specs-IsAudited = (
  record { safe = dc_parameters-IsCaught; date_fits = omega arith; time_fits = omega arith },
  (
    record {
      safe = local_wavemaker_parameters-IsCaught;
      date_fits = omega arith;
      time_fits = omega arith;
    },
    (
      record {
        safe = local_wavemaker_pro_parameters-IsCaught;
        date_fits = omega arith;
        time_fits = omega arith;
      },
      (
        record {
          safe = aquarium_pump_parameters-IsCaught;
          date_fits = omega arith;
          time_fits = omega arith;
        },
        tt,
      ),
    ),
  ),
)

-- What a schedule says of the buffer that it was decoded from.
pub record IsScheduleOf (spec : ScheduleSpec) (raw : Bytes) (is_enabled : Bool) (s : DeviceSchedule)
    : Type 0 where
  pub flagged : s.enabled ≡ is_enabled
  pub slots_read :
      IsRead spec raw slot_capacity
        (record { entries = s.entries; invalid_slots = s.invalid_slots })
  pub time_shown :
      (t : LocalTime)
      → s.device_local_time ≡ some t
      → IsClockOf (slice raw spec.ymd_offset 4) (slice raw spec.hms_offset 4) t

decode_known_accepts :
    (spec : ScheduleSpec) (raw : Bytes) (is_enabled : Bool)
    → IsAudited spec
    → length raw ≡ spec.raw_status_size
    → (s : DeviceSchedule) × (decode_known spec raw is_enabled ≡ ok (some s))
      × IsScheduleOf spec raw is_enabled s
unfolding decode_known
decode_known_accepts spec raw is_enabled audited size =
    let (slots, read, right) = read_slots_lem spec raw slot_capacity audited.safe in
    let (time, shown, clock) =
      decode_device_local_time_lem raw spec (omega (arith, audited.date_fits, size))
        (omega (arith, audited.time_fits, size)) in
    (
      record {
        enabled = is_enabled;
        device_local_time = time;
        slot_capacity = slot_capacity;
        entries = slots.entries;
        invalid_slots = slots.invalid_slots;
      },
      rw ((==_iff (length raw) spec.raw_status_size).1 size, read, shown) refl,
      record { flagged = refl; slots_read = right; time_shown = clock.0 },
    )

-- `decode_schedule` returns None for a product without a schedule, and raises `ValueError` on a buffer of another size
-- than the product's. Every other buffer gives a schedule: each of the 48 used slots is either one entry, which says what the
-- slot holds, or one invalid index, whose slot does not decode, an unused slot is neither, and a local time is the clock's.
pub decode_schedule_accepts :
    (product_key : String) (raw : Bytes) (is_enabled : Bool)
    → ((lookup product_key specs ≡ none) × (decode_schedule product_key raw is_enabled ≡ ok none))
      ⊎ ((spec : ScheduleSpec) × (lookup product_key specs ≡ some spec)
          × (((length raw ≢ spec.raw_status_size)
                × (decode_schedule product_key raw is_enabled ≡ err value_error))
              ⊎ ((length raw ≡ spec.raw_status_size)
                  × ((s : DeviceSchedule) × (decode_schedule product_key raw is_enabled
                        ≡ ok (some s))
                      × IsScheduleOf spec raw is_enabled s))))
unfolding decode_schedule decode_for decode_known
decode_schedule_accepts product_key raw is_enabled =
    elim (Option-cases (lookup product_key specs)) [
      | inl missing ↦ inl (missing, rw missing refl)
      | inr (spec, found) ↦ inr (
        spec,
        found,
        elim (ℕ_discrete (length raw) spec.raw_status_size) [
          | yes same ↦
              let (s, done, right) =
                decode_known_accepts spec raw is_enabled
                  (All-lookup (λ key. IsAudited) product_key specs specs-IsAudited found) same in
              inr (same, (s, rw found done, right))
          | no other ↦ inl (other, rw found (ground (arith, other)))
        ],
      )
    ]
