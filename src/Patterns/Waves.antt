-- ===== src/Patterns/Waves.antt =====
-- patterns/tidal_swell.py and nutrient_transport.py
use jebao_flow_engine.Base.{ℕ, ◌%◌, ◌+◌, ◌==◌, if◌then◌else◌, []}
use jebao_flow_engine.Base.Dict.{Dict}
use jebao_flow_engine.Base.Int.{ℤ, pos, negsuc}
use jebao_flow_engine.Base.Result.{Result, ok, ◌>>=◌}
use jebao_flow_engine.Floats.{Floats, divide}
use jebao_flow_engine.Groups.{GroupMember, GroupConfig, GroupRuntime}
use jebao_flow_engine.Patterns.Shared.{
  is_group_enabled, effective_limits, effective_period, effective_ceiling, for_members,
}
use jebao_flow_engine.Protocol.Models.{DeviceTarget}

-- `cycle % 2`, which Python takes of a negative number too
unfoldable pub parity : ℤ → ℕ
parity (pos n) = n % 2
parity (negsuc n) = (n + 1) % 2

module _ (F : Floats) where
  open F use {Float, of_nat, literal, add, sub, mul, mod_one, floor, lt, sin, abs, tau}

  unfoldable pub tidal_intensity : Float → Result Float
  tidal_intensity fraction =
      if lt fraction (literal 4 1)
      then (sin (mul (mul fraction tau) (of_nat 5)) >>= λ wave.
          ok (add (literal 55 2) (mul (literal 35 2) (abs wave))))
      else if lt fraction (literal 7 1)
      then ok (literal 3 1)
      else if lt fraction (literal 9 1)
      then (divide F (sub fraction (literal 7 1)) (literal 2 1) >>= λ rise.
          ok (add (literal 3 1) (mul rise (literal 7 1))))
      else ok (literal 10 1)

  unfoldable pub tidal_swell_pattern :
      Float → GroupConfig Float → GroupRuntime Float → Result (Dict DeviceTarget)
  tidal_swell_pattern timestamp group runtime = do
    limits ← effective_limits F group runtime
    upper ← effective_ceiling F group runtime limits
    let period = effective_period F group runtime
    elapsed_cycles ← divide F (sub timestamp runtime.started_at) period
    cycle ← floor elapsed_cycles
    intensity ← tidal_intensity (mod_one elapsed_cycles)
    let dominant_side = parity cycle
    let low = of_nat limits.min_power
    let request = λ (member : GroupMember Float).
        let member_side : ℕ = if lt member.phase (of_nat 180) then 0 else 1 in
        let dominance = if member_side == dominant_side then literal 10 1 else literal 5 1 in
        ok (add low (mul (sub upper low) (mul intensity dominance)))
    for_members F request limits (is_group_enabled F group runtime) group.members []

  unfoldable pub nutrient_transport_pattern :
      Float → GroupConfig Float → GroupRuntime Float → Result (Dict DeviceTarget)
  nutrient_transport_pattern timestamp group runtime = do
    limits ← effective_limits F group runtime
    upper ← effective_ceiling F group runtime limits
    let period = effective_period F group runtime
    elapsed_cycles ← divide F (sub timestamp runtime.started_at) period
    let fraction = mod_one elapsed_cycles
    let low = of_nat limits.min_power
    let request = λ (member : GroupMember Float).
        let surge = mul (sub fraction (literal 5 1)) (of_nat 2) in
        if lt fraction (literal 5 1)
        then (divide F member.phase (of_nat 360) >>= λ delay.
            let wave_fraction = mod_one (sub (mul fraction (of_nat 8)) delay) in
            ok (if lt wave_fraction (literal 5 1) then upper else low))
        else ok (add low (mul (sub upper low) (add (literal 6 1) (mul (literal 4 1) surge))))
    for_members F request limits (is_group_enabled F group runtime) group.members []
