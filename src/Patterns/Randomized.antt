-- ===== src/Patterns/Randomized.antt =====
-- patterns/randomized.py
use jebao_flow_engine.Base.{zero, suc, ◌-◌, ◌+◌, ◌^◌, String, []}
use jebao_flow_engine.Base.Dict.{Dict}
use jebao_flow_engine.Base.Int.{ℤ, pos, negsuc}
use jebao_flow_engine.Base.Result.{Result, ok, ◌>>=◌}
use jebao_flow_engine.Floats.{Floats, divide}
use jebao_flow_engine.Groups.{GroupMember, GroupConfig, GroupRuntime}
use jebao_flow_engine.Patterns.Shared.{
  is_group_enabled, effective_limits, effective_period, effective_ceiling, for_members,
}
use jebao_flow_engine.Protocol.Models.{DeviceTarget}
use Prim.Native.String.{◌++◌}

-- `step + 1`
unfoldable pub next_step : ℤ → ℤ
next_step (pos n) = pos (n + 1)
next_step (negsuc zero) = pos 0
next_step (negsuc (suc n)) = negsuc n

module _ (F : Floats) where
  open F use {Float, of_nat, literal, add, sub, mul, ratio, floor, digest}

  -- `float(step)`
  unfoldable pub of_int : ℤ → Float
  of_int (pos n) = of_nat n
  of_int (negsuc n) = sub (of_nat 0) (of_nat (n + 1))

  unfoldable pub stable_unit : String → ℤ → Float
  stable_unit seed step = ratio (digest seed step) (2 ^ 64 - 1)

  unfoldable pub smoothstep : Float → Float
  smoothstep value = mul (mul value value) (sub (of_nat 3) (mul (of_nat 2) value))

  unfoldable pub lagoon_pattern :
      Float → GroupConfig Float → GroupRuntime Float → Result (Dict DeviceTarget)
  lagoon_pattern timestamp group runtime = do
    limits ← effective_limits F group runtime
    ceiling ← effective_ceiling F group runtime limits
    let period = effective_period F group runtime
    elapsed_cycles ← divide F (sub timestamp runtime.started_at) period
    step ← floor elapsed_cycles
    let blend = smoothstep (sub elapsed_cycles (of_int step))
    let low = of_nat limits.min_power
    let request = λ (member : GroupMember Float).
        let seed = "lagoon:" ++ (group.id ++ (":" ++ member.device)) in
        let start = stable_unit seed step in
        let end = stable_unit seed (next_step step) in
        let unit = add start (mul (sub end start) blend) in
        let gentle_unit = add (literal 15 2) (mul unit (literal 5 1)) in
        ok (add low (mul (sub ceiling low) gentle_unit))
    for_members F request limits (is_group_enabled F group runtime) group.members []

  unfoldable pub reef_crest_pattern :
      Float → GroupConfig Float → GroupRuntime Float → Result (Dict DeviceTarget)
  reef_crest_pattern timestamp group runtime = do
    limits ← effective_limits F group runtime
    ceiling ← effective_ceiling F group runtime limits
    let period = effective_period F group runtime
    elapsed_cycles ← divide F (sub timestamp runtime.started_at) period
    step ← floor elapsed_cycles
    let low = of_nat limits.min_power
    let request = λ (member : GroupMember Float).
        let unit = stable_unit ("reef-crest:" ++ (group.id ++ (":" ++ member.device))) step in
        let energetic_unit = add (literal 35 2) (mul unit (literal 65 2)) in
        ok (add low (mul (sub ceiling low) energetic_unit))
    for_members F request limits (is_group_enabled F group runtime) group.members []
