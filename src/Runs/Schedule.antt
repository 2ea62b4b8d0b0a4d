-- ===== src/Runs/Schedule.antt =====
-- A schedule decoded from concrete bytes.
use jebao_flow_engine.Base.{
  ◌≡◌, ◌≢◌, refl, true, false, Option, none, some, [], ◌∷◌, ◌++◌, arith, ◌⊎◌, length, replicate,
  slice,
}
use jebao_flow_engine.Base.Bytes.{Bytes}
use jebao_flow_engine.Base.Dict.{Dict, lookup, insert}
use jebao_flow_engine.Base.Result.{ok, err, value_error}
use jebao_flow_engine.Protocol.Models.{DeviceSchedule, LocalTime, Text}
use jebao_flow_engine.Protocol.Profiles.{
  get_product_schema, dosing_pump, dc_pump_pro, local_wavemaker, aquarium_pump, local_wavemaker_pro,
}
use jebao_flow_engine.Protocol.Schedule.{
  ScheduleSpec, aquarium_pump_parameters, aquarium_pump_product_key, decode_device_local_time,
  decode_schedule, format_time, is_unused, specs,
}
use jebao_flow_engine.Protocol.Schedule.Accepts.{IsScheduleOf, decode_schedule_accepts}
use jebao_flow_engine.Protocol.Schedule.Dates.{IsClockOf, decode_device_local_time_lem}
use jebao_flow_engine.Protocol.Schedule.Fits.{get_product_schema-decodes}
use jebao_flow_engine.Protocol.Schedule.Times.{IsTime, read_time, read_time-format_time}
use jebao_flow_engine.Protocol.Schema.{decode_status}
use jebao_flow_engine.Protocol.Value.{Value}

read_time-format_time_example :
    (IsTime 7 5 false
      × ((text : Text) × (format_time 7 5 false ≡ ok text) × (read_time text ≡ some (7, 5))))
    ⊎ ((¬ IsTime 7 5 false) × (format_time 7 5 false ≡ err value_error))
read_time-format_time_example = read_time-format_time 7 5 false

-- The clock shows 2026-02-28 12:30:05; the first slot is from 8:00 to 24:00 in mode 1, the others are unused.
abbrev status : Bytes
status =
    0
    ∷ 0
    ∷ 0
    ∷ 0
    ∷ 0
    ∷ 20
    ∷ 26
    ∷ 2
    ∷ 28
    ∷ 0
    ∷ 12
    ∷ 30
    ∷ 5
    ∷ 8
    ∷ 0
    ∷ 24
    ∷ 0
    ∷ 1
    ∷ 50
    ∷ replicate 283 0

abbrev spec : ScheduleSpec
spec = record {
  raw_status_size = 302;
  slot_offset = 13;
  slot_size = 6;
  ymd_offset = 5;
  hms_offset = 9;
  modes = "stopped" ∷ "auto" ∷ "feed" ∷ [];
  decode_parameters = aquarium_pump_parameters;
}

decode_device_local_time_lem_example :
    (time : Option LocalTime) × (decode_device_local_time status spec ≡ ok time)
    × (((t : LocalTime) → time ≡ some t → IsClockOf (slice status 5 4) (slice status 9 4) t)
        × ((t : LocalTime)
            → is_unused (slice status 5 4 ++ slice status 9 4) ≡ false
            → IsClockOf (slice status 5 4) (slice status 9 4) t
            → time ≡ some t))
decode_device_local_time_lem_example =
    decode_device_local_time_lem status spec (omega arith) (omega arith)

decode_schedule_accepts_example :
    ((lookup aquarium_pump_product_key specs ≡ none)
      × (decode_schedule aquarium_pump_product_key status true ≡ ok none))
    ⊎ ((spec : ScheduleSpec) × (lookup aquarium_pump_product_key specs ≡ some spec)
        × (((length status ≢ spec.raw_status_size)
              × (decode_schedule aquarium_pump_product_key status true ≡ err value_error))
            ⊎ ((length status ≡ spec.raw_status_size)
                × ((s : DeviceSchedule) × (decode_schedule aquarium_pump_product_key status true
                      ≡ ok (some s))
                    × IsScheduleOf spec status true s))))
decode_schedule_accepts_example = decode_schedule_accepts aquarium_pump_product_key status true

gets_aquarium_pump : get_product_schema aquarium_pump_product_key ≡ ok aquarium_pump
unfolding get_product_schema dosing_pump dc_pump_pro local_wavemaker aquarium_pump
    local_wavemaker_pro lookup insert
gets_aquarium_pump = refl

status_size : length status ≡ aquarium_pump.raw_status_size
unfolding aquarium_pump
status_size = refl

get_product_schema-decodes_example :
    ((values : Dict Value) × (decode_status aquarium_pump status ≡ ok values))
    × (((lookup aquarium_pump_product_key specs ≡ none)
          × (decode_schedule aquarium_pump.product_key status true ≡ ok none))
        ⊎ ((spec : ScheduleSpec) × (lookup aquarium_pump_product_key specs ≡ some spec)
            × ((schedule : DeviceSchedule) × (decode_schedule aquarium_pump.product_key status true
                  ≡ ok (some schedule))
                × IsScheduleOf spec status true schedule)))
get_product_schema-decodes_example =
    get_product_schema-decodes aquarium_pump_product_key aquarium_pump status true
      gets_aquarium_pump status_size
