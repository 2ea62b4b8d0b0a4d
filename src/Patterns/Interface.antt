-- ===== src/Patterns/Interface.antt =====
-- What the service needs of groups/calculator.py: its two operations and what they promise.
use jebao_flow_engine.Base.{◌≡◌, Bool, true}
use jebao_flow_engine.Base.Dict.{Dict}
use jebao_flow_engine.Base.Result.{Result, ok}
use jebao_flow_engine.Floats.{Floats, FloatLaws}
use jebao_flow_engine.Groups.{GroupConfig, GroupRuntime, PatternKind}
use jebao_flow_engine.Patterns.Bounds.{calculate-IsBounded, calculate-eq_ok}
use jebao_flow_engine.Patterns.Calculator.{is_supported, calculate}
use jebao_flow_engine.Patterns.Returns.{HasCycles}
use jebao_flow_engine.Patterns.Targets.{AllWithin, Covers, IsBounded}
use jebao_flow_engine.Patterns.Shared.{or_default, effective_limits, is_group_enabled}
use jebao_flow_engine.Protocol.Models.{DeviceTarget}
use jebao_flow_engine.Safety.{PowerLimits}

pub record Calculator (F : Floats) : Type 0 where
  pub supports : PatternKind → Bool
  pub targets : F.Float → GroupConfig F.Float → GroupRuntime F.Float → Result (Dict DeviceTarget)

pub record CalculatorLaws (F : Floats) (C : Calculator F) : Type 0 where
  pub targets-IsBounded :
      (timestamp : F.Float) (group : GroupConfig F.Float) (runtime : GroupRuntime F.Float)
      (limits : PowerLimits)
      → C.supports (or_default group.default.pattern runtime.pattern) ≡ true
      → effective_limits F group runtime ≡ ok limits
      → HasCycles F timestamp group runtime
      → IsBounded
          (is_group_enabled F group runtime)
          limits
          group.members
          (C.targets timestamp group runtime)
  pub targets-eq_ok :
      (timestamp : F.Float) (group : GroupConfig F.Float) (runtime : GroupRuntime F.Float)
      (targets : Dict DeviceTarget)
      → C.targets timestamp group runtime ≡ ok targets
      → (limits : PowerLimits) × AllWithin (is_group_enabled F group runtime) limits targets
        × Covers group.members targets

-- `PatternCalculator()`
abbrev pub pattern_calculator : (F : Floats) → Calculator F
pattern_calculator F = record { supports = is_supported; targets = calculate F }

pub pattern_calculator_laws : (F : Floats) → FloatLaws F → CalculatorLaws F (pattern_calculator F)
pattern_calculator_laws F L = record {
  targets-IsBounded = calculate-IsBounded F L;
  targets-eq_ok = calculate-eq_ok F L;
}
