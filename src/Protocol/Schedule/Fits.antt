-- ===== src/Protocol/Schedule/Fits.antt =====
-- The schedules of protocol/schedule.py beside the profiles of protocol/profiles.py.
use jebao_flow_engine.Base.{
  ℕ, String, ◌≡◌, refl, sym, ◌∙◌, ap, Bool, none, some, length, ◌⊎◌, inl, inr, All,
}
use jebao_flow_engine.Base.Bytes.{Bytes}
use jebao_flow_engine.Base.Dict.{Dict, lookup, insert}
use jebao_flow_engine.Base.Result.{ok, ok-injective}
use jebao_flow_engine.Protocol.Models.{DeviceSchedule}
use jebao_flow_engine.Protocol.Profiles.{
  get_product_schema, dc_pump_pro, dosing_pump, local_wavemaker, aquarium_pump, local_wavemaker_pro,
}
use jebao_flow_engine.Protocol.Profiles.Valid.{IsValid, get_product_schema-IsValid}
use jebao_flow_engine.Protocol.Schedule.{
  ScheduleSpec, specs, decode_schedule, dc_pump_pro_product_key, local_wavemaker_product_key,
  local_wavemaker_pro_product_key, aquarium_pump_product_key,
}
use jebao_flow_engine.Protocol.Schedule.Accepts.{All-lookup, IsScheduleOf, decode_schedule_accepts}
use jebao_flow_engine.Protocol.Schema.{ProductSchema, decode_status}
use jebao_flow_engine.Protocol.Schema.Decoding.{decode_status_accepts}
use jebao_flow_engine.Protocol.Value.{Value}

-- The status of a product's schedule is the status of its profile.
abbrev IsFitting : String → ℕ → Type 0
IsFitting key size =
    (schema : ProductSchema) → get_product_schema key ≡ ok schema → size ≡ schema.raw_status_size

IsFitting-intro :
    (key : String) (size : ℕ) (found : ProductSchema)
    → get_product_schema key ≡ ok found
    → size ≡ found.raw_status_size
    → IsFitting key size
IsFitting-intro key size found known same schema h =
    same ∙ ap (λ (s : ProductSchema). s.raw_status_size) (ok-injective (sym known ∙ h))

gets_dc_pump_pro : get_product_schema dc_pump_pro_product_key ≡ ok dc_pump_pro
unfolding get_product_schema dosing_pump dc_pump_pro local_wavemaker aquarium_pump
    local_wavemaker_pro lookup insert
gets_dc_pump_pro = refl

gets_local_wavemaker : get_product_schema local_wavemaker_product_key ≡ ok local_wavemaker
unfolding get_product_schema dosing_pump dc_pump_pro local_wavemaker aquarium_pump
    local_wavemaker_pro lookup insert
gets_local_wavemaker = refl

gets_local_wavemaker_pro :
    get_product_schema local_wavemaker_pro_product_key ≡ ok local_wavemaker_pro
unfolding get_product_schema dosing_pump dc_pump_pro local_wavemaker aquarium_pump
    local_wavemaker_pro lookup insert
gets_local_wavemaker_pro = refl

gets_aquarium_pump : get_product_schema aquarium_pump_product_key ≡ ok aquarium_pump
unfolding get_product_schema dosing_pump dc_pump_pro local_wavemaker aquarium_pump
    local_wavemaker_pro lookup insert
gets_aquarium_pump = refl

specs-IsFitting :
    All (λ (entry : String × ScheduleSpec). IsFitting entry.0 entry.1.raw_status_size) specs
unfolding specs dc_pump_pro local_wavemaker local_wavemaker_pro aquarium_pump
specs-IsFitting = (
  IsFitting-intro dc_pump_pro_product_key 402 dc_pump_pro gets_dc_pump_pro refl,
  (
    IsFitting-intro local_wavemaker_product_key 401 local_wavemaker gets_local_wavemaker refl,
    (
      IsFitting-intro local_wavemaker_pro_product_key 452 local_wavemaker_pro
          gets_local_wavemaker_pro refl,
      (IsFitting-intro aquarium_pump_product_key 302 aquarium_pump gets_aquarium_pump refl, tt),
    ),
  ),
)

-- Every status buffer of a known product, of the product's size, decodes: its datapoints into values, and its schedule
-- into one that says what the slots hold, exactly where the product has a schedule; for any other product
-- `decode_schedule` returns None.
pub get_product_schema-decodes :
    (product_key : String) (schema : ProductSchema) (raw : Bytes) (is_enabled : Bool)
    → get_product_schema product_key ≡ ok schema
    → length raw ≡ schema.raw_status_size
    → ((values : Dict Value) × (decode_status schema raw ≡ ok values))
      × (((lookup product_key specs ≡ none)
            × (decode_schedule schema.product_key raw is_enabled ≡ ok none))
          ⊎ ((spec : ScheduleSpec) × (lookup product_key specs ≡ some spec)
              × ((schedule : DeviceSchedule) × (decode_schedule schema.product_key raw is_enabled
                    ≡ ok (some schedule))
                  × IsScheduleOf spec raw is_enabled schedule)))
unfolding IsValid
get_product_schema-decodes product_key schema raw is_enabled known size =
    let (same, valid) = get_product_schema-IsValid product_key schema known in
    (
      elim (decode_status_accepts schema raw valid.0 valid.1) [
        | inl (_, (values, done, _)) ↦ (values, done)
        | inr (other, _) ↦ absurd (other size)
      ],
      elim (decode_schedule_accepts schema.product_key raw is_enabled) [
        | inl (missing, done) ↦ inl (ap (λ k. lookup k specs) (sym same) ∙ missing, done)
        | inr (spec, found, answer) ↦ elim answer [
          | inr (_, (schedule, done, right)) ↦
              inr (spec, ap (λ k. lookup k specs) (sym same) ∙ found, (schedule, done, right))
          | inl (other, _) ↦
              let fits =
                All-lookup (λ key spec. IsFitting key spec.raw_status_size) product_key specs
                  specs-IsFitting (ap (λ k. lookup k specs) (sym same) ∙ found) schema known in
              absurd (other (size ∙ sym fits))
        ]
      ],
    )
