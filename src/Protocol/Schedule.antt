-- ===== src/Protocol/Schedule.antt =====
-- protocol/schedule.py: the daily schedule of a pump, read from its status buffer. `bytes` are lists
-- of numbers, texts are lists of character codes.
pub mod Times
pub mod Dates
pub mod Rounds
pub mod Accepts
pub mod Fits
use jebao_flow_engine.Base.{
  ℕ, zero, suc, ◌+◌, ◌*◌, ◌/◌, ◌%◌, Bool, true, false, not, ◌&&◌, ◌||◌, Option, none, some, List,
  [], ◌∷◌, ◌++◌, String, leb, ltb, ◌==◌, if◌then◌else◌, str_eq, length, get_elem?, slice, replicate,
}
use jebao_flow_engine.Base.Bytes.{Bytes}
use jebao_flow_engine.Base.Dict.{Dict, lookup, insert}
use jebao_flow_engine.Base.Int.{pos}
use jebao_flow_engine.Base.Result.{
  Error, Result, ok, err, ensure, require, ◌>>=◌, ◌>>◌, value_error, index_error,
}
use jebao_flow_engine.Protocol.Models.{DeviceSchedule, LocalTime, ScheduleEntry, Text}
use jebao_flow_engine.Protocol.Value.{Value, of_bool, of_int, bytes_eq}

abbrev pub slot_capacity : ℕ
slot_capacity = 48

abbrev pub dc_pump_pro_product_key : String
dc_pump_pro_product_key = "0696a19599bc484f8e1866f5ccf4ee7e"

abbrev pub local_wavemaker_product_key : String
local_wavemaker_product_key = "1d8c63eaccac4205b92c84d77d5a08fb"

abbrev pub local_wavemaker_pro_product_key : String
local_wavemaker_pro_product_key = "50dbc92221fd4d33ae69a1fedd43b555"

abbrev pub aquarium_pump_product_key : String
aquarium_pump_product_key = "6a5c47b3ea364ecb841b47f5997a1775"

pub record ScheduleSpec : Type 0 where
  pub raw_status_size : ℕ
  pub slot_offset : ℕ
  pub slot_size : ℕ
  pub ymd_offset : ℕ
  pub hms_offset : ℕ
  pub modes : List String
  pub decode_parameters : String → Bytes → Result (Dict Value)

-- `raw[index]`
abbrev pub byte_at : Bytes → ℕ → Result ℕ
byte_at raw index = require index_error (get_elem? raw index)

abbrev number : ℕ → Value
number n = of_int (pos n)

unfoldable pub dc_parameters : String → Bytes → Result (Dict Value)
dc_parameters mode slot = do
  flow ← byte_at slot 5
  frequency ← byte_at slot 6
  feed_time ← byte_at slot 7
  ok (
      ("flow", number flow)
      ∷ ("frequency", number frequency)
      ∷ ("feed_time", number feed_time)
      ∷ [])

unfoldable pub local_wavemaker_parameters : String → Bytes → Result (Dict Value)
local_wavemaker_parameters mode slot = do
  pulse_tide ← byte_at slot 7
  ensure (leb pulse_tide 1) value_error
  amount ← byte_at slot 5
  frequency ← byte_at slot 6
  ok (
      ((if str_eq mode "feed" then "feed_time" else "flow"), number amount)
      ∷ ("frequency", number frequency)
      ∷ ("pulse_tide", of_bool (pulse_tide == 1))
      ∷ [])

unfoldable pub local_wavemaker_pro_parameters : String → Bytes → Result (Dict Value)
local_wavemaker_pro_parameters mode slot = do
  flow ← byte_at slot 5
  frequency ← byte_at slot 6
  feed_time ← byte_at slot 7
  custom_frequency ← byte_at slot 8
  ok (
      ("flow", number flow)
      ∷ ("frequency", number frequency)
      ∷ ("feed_time", number feed_time)
      ∷ ("custom_frequency", number custom_frequency)
      ∷ [])

unfoldable pub aquarium_pump_parameters : String → Bytes → Result (Dict Value)
aquarium_pump_parameters mode slot = do
  amount ← byte_at slot 5
  ok (((if str_eq mode "feed" then "feed_time" else "gears"), number amount) ∷ [])

unfoldable pub specs : Dict ScheduleSpec
unfolding dc_parameters local_wavemaker_parameters local_wavemaker_pro_parameters
    aquarium_pump_parameters
specs =
    (
      dc_pump_pro_product_key,
      record {
        raw_status_size = 402;
        slot_offset = 9;
        slot_size = 8;
        ymd_offset = 393;
        hms_offset = 397;
        modes = "constant" ∷ "unverified_1" ∷ "unverified_2" ∷ "random" ∷ "feed" ∷ [];
        decode_parameters = dc_parameters;
      },
    )
    ∷ (
      local_wavemaker_product_key,
      record {
        raw_status_size = 401;
        slot_offset = 8;
        slot_size = 8;
        ymd_offset = 392;
        hms_offset = 396;
        modes = "stopped" ∷ "classic" ∷ "sine" ∷ "random" ∷ "constant" ∷ "feed" ∷ [];
        decode_parameters = local_wavemaker_parameters;
      },
    )
    ∷ (
      local_wavemaker_pro_product_key,
      record {
        raw_status_size = 452;
        slot_offset = 11;
        slot_size = 9;
        ymd_offset = 443;
        hms_offset = 447;
        modes =
            "pulse" ∷ "sine" ∷ "constant" ∷ "random" ∷ "tidal" ∷ "nutrient_transport"
            ∷ "circulation" ∷ "feed" ∷ "custom" ∷ [];
        decode_parameters = local_wavemaker_pro_parameters;
      },
    )
    ∷ (
      aquarium_pump_product_key,
      record {
        raw_status_size = 302;
        slot_offset = 13;
        slot_size = 6;
        ymd_offset = 5;
        hms_offset = 9;
        modes = "stopped" ∷ "auto" ∷ "feed" ∷ [];
        decode_parameters = aquarium_pump_parameters;
      },
    )
    ∷ []

unfoldable pub is_unused : Bytes → Bool
is_unused slot =
    bytes_eq slot (replicate (length slot) 0) || bytes_eq slot (replicate (length slot) 0xEE)

-- `f"{value:02d}"` of a number below 100
abbrev pub two_digits : ℕ → Text
two_digits value = (48 + value / 10) ∷ (48 + value % 10) ∷ []

unfoldable pub format_time : ℕ → ℕ → Bool → Result Text
format_time hour minute allow_24 =
    if leb hour 23 && leb minute 59
    then ok (two_digits hour ++ (58 ∷ []) ++ two_digits minute)
    else if allow_24 && hour == 24 && minute == 0
    then ok (50 ∷ 52 ∷ 58 ∷ 48 ∷ 48 ∷ [])
    else err value_error

-- The body of the `try` block in the loop of `decode_schedule`, and the new entry.
unfoldable pub decode_slot : ScheduleSpec → Bytes → ℕ → Result ScheduleEntry
decode_slot spec slot slot_index = do
  start_hour ← byte_at slot 0
  start_minute ← byte_at slot 1
  start_time ← format_time start_hour start_minute false
  end_hour ← byte_at slot 2
  end_minute ← byte_at slot 3
  end_time ← format_time end_hour end_minute true
  mode_code ← byte_at slot 4
  mode ← require index_error (get_elem? spec.modes mode_code)
  parameters ← spec.decode_parameters mode slot
  ok (record {
    slot = slot_index;
    start = start_time;
    stop = end_time;
    mode = mode;
    mode_code = mode_code;
    parameters = parameters;
  })

-- `except (IndexError, ValueError)`
unfoldable pub is_caught : Error → Bool
is_caught index_error = true
is_caught value_error = true
is_caught _ = false

-- The two lists that the loop fills.
pub record Slots : Type 0 where
  pub entries : List ScheduleEntry
  pub invalid_slots : List ℕ

unfoldable pub add_slot : ℕ → Slots → Result ScheduleEntry → Result Slots
unfolding is_caught
add_slot slot_index s (ok entry) = ok (record s { entries = s.entries ++ (entry ∷ []) })
add_slot slot_index s (err raised) =
    if is_caught raised
    then ok (record s { invalid_slots = s.invalid_slots ++ (slot_index ∷ []) })
    else err raised

unfoldable pub slot_of : ScheduleSpec → Bytes → ℕ → Bytes
slot_of spec raw slot_index =
    slice raw (spec.slot_offset + slot_index * spec.slot_size) spec.slot_size

-- One round of the loop.
unfoldable pub read_slot : ScheduleSpec → Bytes → ℕ → Slots → Result Slots
unfolding slot_of is_unused decode_slot add_slot
read_slot spec raw slot_index s =
    let slot = slot_of spec raw slot_index in
    if is_unused slot then ok s else add_slot slot_index s (decode_slot spec slot slot_index)

-- The first `count` rounds.
unfoldable pub read_slots : ScheduleSpec → Bytes → ℕ → Result Slots
unfolding read_slot
read_slots spec raw zero = ok (record { entries = []; invalid_slots = [] })
read_slots spec raw (suc count) = read_slots spec raw count >>= read_slot spec raw count

unfoldable pub is_leap : ℕ → Bool
is_leap year = year % 4 == 0 && (not (year % 100 == 0) || year % 400 == 0)

unfoldable pub days_in_month : ℕ → ℕ → ℕ
unfolding is_leap
days_in_month year month =
    if month == 2
    then (if is_leap year then 29 else 28)
    else if month == 4 || month == 6 || month == 9 || month == 11
    then 30
    else 31

-- The constructor of `datetime`: a value that is out of range is a `ValueError`.
unfoldable pub datetime : ℕ → ℕ → ℕ → ℕ → ℕ → ℕ → Result LocalTime
unfolding days_in_month
datetime y m d hh mm ss = do
  ensure (leb 1 y && leb y 9999) value_error
  ensure (leb 1 m && leb m 12) value_error
  ensure (leb 1 d && leb d (days_in_month y m)) value_error
  ensure (leb hh 23 && leb mm 59 && leb ss 59) value_error
  ok (record { year = y; month = m; day = d; hour = hh; minute = mm; second = ss })

-- `except ValueError: return None`
unfoldable pub caught : Result LocalTime → Result (Option LocalTime)
caught (ok time) = ok (some time)
caught (err value_error) = ok none
caught (err raised) = err raised

unfoldable pub read_datetime : Bytes → Bytes → Result LocalTime
unfolding datetime
read_datetime ymd hms = do
  century ← byte_at ymd 0
  year ← byte_at ymd 1
  month ← byte_at ymd 2
  day ← byte_at ymd 3
  hour ← byte_at hms 1
  minute ← byte_at hms 2
  second ← byte_at hms 3
  datetime (century * 100 + year) month day hour minute second

-- What the bytes of the date and of the time say.
unfoldable pub clock_time : Bytes → Bytes → Result (Option LocalTime)
unfolding is_unused caught read_datetime
clock_time ymd hms =
    if is_unused (ymd ++ hms)
    then ok none
    else byte_at hms 0 >>= λ first.
        if not (first == 0) then ok none else caught (read_datetime ymd hms)

unfoldable pub decode_device_local_time : Bytes → ScheduleSpec → Result (Option LocalTime)
unfolding clock_time
decode_device_local_time raw spec =
    clock_time (slice raw spec.ymd_offset 4) (slice raw spec.hms_offset 4)

-- The part of `decode_schedule` behind the lookup of the specification.
unfoldable pub decode_known : ScheduleSpec → Bytes → Bool → Result (Option DeviceSchedule)
unfolding read_slots decode_device_local_time
decode_known spec raw is_enabled = do
  ensure (length raw == spec.raw_status_size) value_error
  slots ← read_slots spec raw slot_capacity
  local_time ← decode_device_local_time raw spec
  ok (
      some (record {
        enabled = is_enabled;
        device_local_time = local_time;
        slot_capacity = slot_capacity;
        entries = slots.entries;
        invalid_slots = slots.invalid_slots;
      }))

-- The answer for a looked-up specification.
unfoldable pub decode_for : Option ScheduleSpec → Bytes → Bool → Result (Option DeviceSchedule)
unfolding decode_known
decode_for none raw is_enabled = ok none
decode_for (some spec) raw is_enabled = decode_known spec raw is_enabled

unfoldable pub decode_schedule : String → Bytes → Bool → Result (Option DeviceSchedule)
unfolding specs decode_for
decode_schedule product_key raw is_enabled = decode_for (lookup product_key specs) raw is_enabled

unfoldable pub decode_device_schedule : String → Bytes → Bool → Result (Option DeviceSchedule)
unfolding decode_schedule
decode_device_schedule product_key raw is_enabled = decode_schedule product_key raw is_enabled
