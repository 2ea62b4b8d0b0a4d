-- ===== src/Patterns/Fixed.antt =====
-- patterns/constant.py, sync.py, anti_phase.py and gyre.py
use jebao_flow_engine.Base.{if◌then◌else◌, []}
use jebao_flow_engine.Base.Dict.{Dict}
use jebao_flow_engine.Base.Result.{Result, ok, ◌>>=◌}
use jebao_flow_engine.Floats.{Floats}
use jebao_flow_engine.Groups.{GroupMember, GroupConfig, GroupRuntime}
use jebao_flow_engine.Patterns.Shared.{
  is_group_enabled, effective_limits, effective_period, effective_power, effective_ceiling,
  cycle_fraction, for_members,
}
use jebao_flow_engine.Protocol.Models.{DeviceTarget}

module _ (F : Floats) where
  open F use {Float, of_nat, literal, lt}

  unfoldable pub constant_pattern :
      Float → GroupConfig Float → GroupRuntime Float → Result (Dict DeviceTarget)
  constant_pattern timestamp group runtime = do
    limits ← effective_limits F group runtime
    let power = of_nat (effective_power F group runtime)
    for_members F (λ member. ok power) limits (is_group_enabled F group runtime) group.members []

  unfoldable pub sync_pattern :
      Float → GroupConfig Float → GroupRuntime Float → Result (Dict DeviceTarget)
  sync_pattern timestamp group runtime = do
    limits ← effective_limits F group runtime
    let period = effective_period F group runtime
    fraction ← cycle_fraction F timestamp runtime period (of_nat 0)
    let power = of_nat (if lt fraction (literal 5 1) then limits.max_power else limits.min_power)
    for_members F (λ member. ok power) limits (is_group_enabled F group runtime) group.members []

  unfoldable pub anti_phase_pattern :
      Float → GroupConfig Float → GroupRuntime Float → Result (Dict DeviceTarget)
  anti_phase_pattern timestamp group runtime = do
    limits ← effective_limits F group runtime
    let period = effective_period F group runtime
    let request = λ (member : GroupMember Float).
        cycle_fraction F timestamp runtime period member.phase >>= λ fraction.
        ok (of_nat (if lt fraction (literal 5 1) then limits.max_power else limits.min_power))
    for_members F request limits (is_group_enabled F group runtime) group.members []

  unfoldable pub gyre_pattern :
      Float → GroupConfig Float → GroupRuntime Float → Result (Dict DeviceTarget)
  gyre_pattern timestamp group runtime = do
    limits ← effective_limits F group runtime
    upper ← effective_ceiling F group runtime limits
    let period = effective_period F group runtime
    let request = λ (member : GroupMember Float).
        cycle_fraction F timestamp runtime period member.phase >>= λ fraction.
        ok (if lt fraction (literal 5 1) then upper else of_nat limits.min_power)
    for_members F request limits (is_group_enabled F group runtime) group.members []
