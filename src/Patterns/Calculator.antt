-- ===== src/Patterns/Calculator.antt =====
-- groups/calculator.py
use jebao_flow_engine.Base.{Bool, true, false}
use jebao_flow_engine.Base.Dict.{Dict}
use jebao_flow_engine.Base.Result.{Result, err, not_implemented_error}
use jebao_flow_engine.Floats.{Floats}
use jebao_flow_engine.Groups.{
  GroupConfig, GroupRuntime, PatternKind, constant, sync, anti_phase, lagoon, reef_crest, gyre,
  tidal_swell, nutrient_transport, sine, random_reef, tide, native,
}
use jebao_flow_engine.Patterns.Shared.{or_default}
use jebao_flow_engine.Patterns.Fixed.{
  constant_pattern, sync_pattern, anti_phase_pattern, gyre_pattern,
}
use jebao_flow_engine.Patterns.Waves.{tidal_swell_pattern, nutrient_transport_pattern}
use jebao_flow_engine.Patterns.Randomized.{lagoon_pattern, reef_crest_pattern}
use jebao_flow_engine.Protocol.Models.{DeviceTarget}

-- `kind in PatternCalculator.supported_patterns()`
unfoldable pub is_supported : PatternKind → Bool
is_supported constant = true
is_supported sync = true
is_supported anti_phase = true
is_supported lagoon = true
is_supported reef_crest = true
is_supported gyre = true
is_supported tidal_swell = true
is_supported nutrient_transport = true
is_supported sine = false
is_supported random_reef = false
is_supported tide = false
is_supported native = false

module _ (F : Floats) where
  open F use {Float}

  -- `create_pattern(kind).calculate`; the table has no entry for the last four kinds.
  unfoldable pub calculate_kind :
      PatternKind → Float → GroupConfig Float → GroupRuntime Float → Result (Dict DeviceTarget)
  calculate_kind constant = constant_pattern F
  calculate_kind sync = sync_pattern F
  calculate_kind anti_phase = anti_phase_pattern F
  calculate_kind lagoon = lagoon_pattern F
  calculate_kind reef_crest = reef_crest_pattern F
  calculate_kind gyre = gyre_pattern F
  calculate_kind tidal_swell = tidal_swell_pattern F
  calculate_kind nutrient_transport = nutrient_transport_pattern F
  calculate_kind sine = λ timestamp group runtime. err not_implemented_error
  calculate_kind random_reef = λ timestamp group runtime. err not_implemented_error
  calculate_kind tide = λ timestamp group runtime. err not_implemented_error
  calculate_kind native = λ timestamp group runtime. err not_implemented_error

  unfoldable pub calculate :
      Float → GroupConfig Float → GroupRuntime Float → Result (Dict DeviceTarget)
  unfolding calculate_kind
  calculate timestamp group runtime =
      calculate_kind (or_default group.default.pattern runtime.pattern) timestamp group runtime
